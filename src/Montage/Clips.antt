-- ===== src/Montage/Clips.antt =====
-- docs/video/edicion/montaje.py: an entry of `CLIPS`, and what `render_clip` makes of it before it builds
-- the command. Times are whole numbers of milliseconds, as in the .srt files.
use telematica_telemetria.Base.{
  ℕ, ◌-◌, Option, none, some, ◌>>=◌, List, [], ◌∷◌, ◌++◌, map, if◌then◌else◌,
}
use telematica_telemetria.Base.Text.{Text, codes, starts_with}
use telematica_telemetria.Montage.Cues.{Cue, Grouping, regroup}
use telematica_telemetria.Montage.Timeline.{Clip, remap}
use telematica_telemetria.Montage.Srt.{load_srt}
use telematica_telemetria.Montage.Graph.{Scene, Overlay}

-- What the source knows of a clip when it renders it: the scene, what f"{speed}" prints where the speed is
-- not 1, and the times of its cues.
pub record Part : Type 0 where
  pub scene : Scene ℕ
  pub speed : Option Text
  pub clip : Clip

-- the `speed` of an entry, where it is not 1: what f"{speed}" prints, and what t / speed is
pub record Speed : Type 0 where
  pub printed : Text
  pub slower : ℕ → ℕ

pub record Entry : Type 0 where
  pub id : Text
  pub who : Text
  pub title : Text
  pub cam : Text
  pub trim : ℕ × ℕ
  pub cut : Option (ℕ × ℕ)
  pub speed : Option Speed
  pub overlays : List (Overlay ℕ)

-- the times of an entry, with the cues of `regroup`
unfoldable pub timing : Entry → List Cue → Clip
timing e cues = record {
  t0 = e.trim.0;
  t1 = e.trim.1;
  cut = e.cut;
  slower = λ t. elim e.speed [ none ↦ t | some s ↦ s.slower t ];
  cues = cues;
}

-- `(ov, remap(a), remap(b))`
unfoldable pub overlay_of : Clip → Overlay ℕ → Overlay ℕ
unfolding remap
overlay_of c o = record { file = o.file; from = remap c o.from; to = remap c o.to }

-- the cut, counted from the start of the clip
unfoldable pub cut_of : Clip → Option (ℕ × ℕ)
cut_of c = elim c.cut [ none ↦ none | some (from, to) ↦ some (from - c.t0, to - c.t0) ]

-- `dur`, `ovl` and the new `c` of `render_clip`
unfoldable pub scene_of : Entry → Scene ℕ
unfolding timing overlay_of cut_of
scene_of e =
    let c = timing e [] in
    record {
      id = e.id;
      title = e.title;
      who = e.who;
      cam = e.cam;
      start = c.t0;
      dur = remap c c.t1;
      cut = cut_of c;
      overlays = map (overlay_of c) e.overlays;
    }

-- the entry with its subtitles, from the text of its .srt file
unfoldable pub part_of : Grouping → Text → Entry → Option Part
unfolding timing scene_of
part_of g srt e = do
  cues ← load_srt srt
  some (record {
    scene = scene_of e;
    speed = elim e.speed [ none ↦ none | some s ↦ some s.printed ];
    clip = timing e (regroup g cues);
  })

-- `if solo and not c["id"].startswith(solo): continue`; without `--solo` the text is empty
unfoldable pub selected : Text → List Entry → List Entry
unfolding starts_with
selected solo [] = []
selected solo (e ∷ entries) =
    let rest = selected solo entries in if starts_with solo e.id then e ∷ rest else rest

-- all of them; `srts` is the text of the .srt file of a name
unfoldable pub parts_of : Grouping → (Text → Text) → List Entry → Option (List Part)
unfolding part_of
parts_of g srts [] = some []
parts_of g srts (e ∷ entries) = do
  part ← part_of g (srts (e.id ++ codes ".srt")) e
  parts ← parts_of g srts entries
  some (part ∷ parts)
