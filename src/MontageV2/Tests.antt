-- ===== src/MontageV2/Tests.antt =====
-- docs/video/edicion/montaje_v2.py: the clips of the video.
use telematica_telemetria.Base.{
  ℕ, ◌*◌, ◌-◌, ◌⊎◌, true, none, some, List, [], ◌∷◌, ◌++◌, map, ◌≡◌, refl, arith, length, ◌/◌,
}
use telematica_telemetria.Base.Text.{codes, show_nat, text_eq}
use telematica_telemetria.Montage.Timeline.{Clip, remap, kept, moved}
use telematica_telemetria.Montage.Order.{Laid, IsSound}
use telematica_telemetria.Montage.Graph.{Scene, Chain, named, is_some, has_pip}
use telematica_telemetria.Montage.Pads.{wire_up}
use telematica_telemetria.Montage.Entries.{clips}
use telematica_telemetria.MontageV2.Ass.{shown, ass_cues}
use telematica_telemetria.MontageV2.Graph.{section, graph}
use telematica_telemetria.MontageV2.Command.{Paths, inputs}
use telematica_telemetria.MontageV2.Wiring.{scene_wired}
use telematica_telemetria.MontageV2.Shown.{late, shown_after_card}

-- no clip of `CLIPS` has a title without a section
clips_have_sections : map (λ e. is_some (section e.title)) clips ≡ map (λ e. true) clips
unfolding section
clips_have_sections = refl

abbrev folders : Paths
folders = record {
  path_join = λ a b. a ++ 47 ∷ b;
  here = codes "w";
  norm = codes "norm";
  assets = codes "assets_v2";
  work = codes "work";
}

abbrev slides : Scene ℕ
slides = record {
  id = codes "05";
  title = codes "5 · Nodos";
  who = codes "Valeria";
  cam = codes "full";
  start = 0;
  dur = 90;
  cut = some (10, 20);
  overlays = record { file = codes "a.png"; from = 24; to = 46 } ∷ [];
}

abbrev end_less : ℕ → ℕ
end_less t = t - 6

scene_wired_example :
    ((section slides.title ≡ none) × (graph show_nat end_less slides ≡ none))
    ⊎ ((chains : List Chain) × (graph show_nat end_less slides ≡ some chains)
        × (wire_up (length (inputs show_nat end_less folders slides)) chains []
            ≡ some (named (codes "vout") ∷ named (codes "aout") ∷ [])))
scene_wired_example = scene_wired show_nat end_less folders slides

-- the source, both overlays and the mask
three_inputs : length (inputs show_nat end_less folders slides) ≡ 3
unfolding inputs has_pip text_eq
three_inputs = refl

-- One cue is over behind the card, one goes on, and one comes later.
abbrev clip : Clip
clip = record {
  t0 = 0;
  t1 = 200;
  cut = some (100, 150);
  slower = λ t. t * 4 / 5;
  cues =
      record { start = 10; stop = 43; text = codes "uno" }
      ∷ record { start = 43; stop = 80; text = codes "dos" }
      ∷ record { start = 160; stop = 190; text = codes "tres" }
      ∷ [];
}

clip-IsSound : IsSound clip
clip-IsSound = record {
  cut = (omega arith, (omega arith, omega arith));
  slower = λ a b le. omega arith;
  cues = (
    omega arith,
    (omega arith, (omega arith, (omega arith, (omega arith, (omega arith, omega arith))))),
  );
}

shown_after_card_example :
    Laid 42 (shown 1 0 (ass_cues clip)) (remap clip clip.t1)
    × (late 1 (shown 1 0 (ass_cues clip)) ≡ late 1 (ass_cues clip))
unfolding remap
shown_after_card_example = shown_after_card 1 clip clip-IsSound (omega arith)

shown_example :
    shown 1 0 (ass_cues clip)
    ≡ record { start = 43; stop = 80; text = codes "dos" }
      ∷ record { start = 110; stop = 140; text = codes "tres" }
      ∷ []
unfolding shown ass_cues kept moved remap
shown_example = refl

-- a cue in front of the card's end that goes on is shortened
shortened :
    shown 1 0 (record { start = 40; stop = 60; text = codes "uno" } ∷ [])
    ≡ record { start = 42; stop = 60; text = codes "uno" } ∷ []
unfolding shown
shortened = refl
