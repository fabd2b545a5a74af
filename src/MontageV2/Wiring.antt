-- ===== src/MontageV2/Wiring.antt =====
-- docs/video/edicion/montaje_v2.py: the pads of the filter graph of `render_clip`.
use telematica_telemetria.Base.{
  ℕ, ◌+◌, ◌<◌, Bool, true, false, none, some, List, [], ◌∷◌, ◌++◌, ◌≡◌, ◌⊎◌, inl, inr, refl, arith,
  length, ltb, ap, ◌∙◌, Bool-cases, Option-cases, ◌>>=◌, length-append, length-map,
}
use telematica_telemetria.Base.Text.{Text, codes, text_eq}
use telematica_telemetria.Montage.Graph.{
  Pad, named, Chain, Scene, Overlay, is_full, has_pip, cut_chains, overlay_chains, pip_chains,
}
use telematica_telemetria.Montage.Pads.{wire_up, wire_up-append}
use telematica_telemetria.Montage.Wiring.{IsApart, Ready, Shape, overlay_chains-Ready}
use telematica_telemetria.MontageV2.Graph.{
  section, start_chains, camera_chains, section_chains, blur_chain, backdrop_chain, text_chain,
  end_chains, graph,
}
use telematica_telemetria.MontageV2.Command.{Paths, inputs, still}

-- what waits while the overlays are laid: the sound, the camera for the section card, and the small
-- picture if there is one
abbrev waiting : Bool → List Pad
waiting true = named (codes "pip") ∷ named (codes "aout") ∷ named (codes "cam2") ∷ []
waiting false = named (codes "aout") ∷ named (codes "cam2") ∷ []

abbrev started : Bool → List Pad
started pip = waiting pip ++ named (codes "base") ∷ []

waiting-IsApart : (pip : Bool) → IsApart (waiting pip)
waiting-IsApart true = record { cards = λ i. refl; layers = λ i. refl }
waiting-IsApart false = record { cards = λ i. refl; layers = λ i. refl }

base-Ready : (n : ℕ) (pip : Bool) → Ready n (waiting pip) (named (codes "base")) (started pip)
unfolding text_eq
base-Ready n true = record {
  picture = refl;
  no_card = λ j. refl;
  apart = λ j. refl;
  shape = inl (refl, refl);
}
base-Ready n false = record {
  picture = refl;
  no_card = λ j. refl;
  apart = λ j. refl;
  shape = inl (refl, refl);
}

abbrev extra : Bool → ℕ
extra true = 1
extra false = 0

module _ {F : Type 0} (show : F → Text) (before_end : F → F) where
  -- the pads in front of the overlays
  front :
      (n : ℕ) (c : Scene F)
      → length c.overlays + extra (has_pip show before_end c) < n
      → wire_up n (cut_chains show before_end c.cut ++ start_chains show before_end c) []
        ≡ some (started (has_pip show before_end c))
  unfolding cut_chains start_chains camera_chains text_eq
  front n c lt =
      let first : ltb 0 n ≡ true = ground arith in
      elim (Bool-cases (has_pip show before_end c)) [
        | inl pip ↦
            let mask : ltb (length c.overlays + 1) n ≡ true = ground (arith, ap extra pip) in
            elim (Option-cases c.cut) [
              | inl e ↦ rw (pip, e, cut_chains, first, mask) refl
              | inr (cut, e) ↦ rw (pip, e, cut_chains, first, mask) refl
            ]
        | inr alone ↦ elim (Option-cases c.cut) [
          | inl e ↦ rw (alone, e, cut_chains, first) refl
          | inr (cut, e) ↦ rw (alone, e, cut_chains, first) refl
        ]
      ]

  -- the pads behind the overlays
  ending :
      (n : ℕ) (c : Scene F) (title : Text × Text) (last : Pad) (pads : List Pad)
      → Shape (waiting (has_pip show before_end c)) last pads
      → wire_up n (end_chains show before_end c title last) pads
        ≡ some (named (codes "vout") ∷ named (codes "aout") ∷ [])
  unfolding end_chains section_chains pip_chains blur_chain backdrop_chain text_chain text_eq
  ending n c title last pads (inl (e, e')) = elim (Bool-cases (has_pip show before_end c)) [
    | inl pip ↦ rw (pip_chains, e, e', pip) refl
    | inr alone ↦ rw (pip_chains, e, e', alone) refl
  ]
  ending n c title last pads (inr (i, e, e')) = elim (Bool-cases (has_pip show before_end c)) [
    | inl pip ↦ rw (pip_chains, e, e', pip) (ground arith)
    | inr alone ↦ rw (pip_chains, e, e', alone) (ground arith)
  ]

  -- the inputs of the command are enough for the graph
  length-inputs :
      (p : Paths) (c : Scene F)
      → length (inputs show before_end p c)
        ≡ length c.overlays + extra (has_pip show before_end c) + 1
  unfolding inputs
  length-inputs p c =
      let card = λ (o : Overlay F). still (show c.dur) (p.path_join p.assets o.file) in
      let cards = length-map card c.overlays in
      elim (Bool-cases (has_pip show before_end c)) [
        | inl pip ↦ rw (pip, length-append, cards) (omega arith)
        | inr alone ↦ rw (alone, length-append, cards) (omega arith)
      ]

  -- Whatever the cut, the camera and the overlays are. A clip whose title has no ' · ' has no graph: the
  -- source stops with an IndexError. For every other one, each chain of the graph reads streams of the
  -- inputs that the command has, and pads that an earlier chain has written and that no other has read;
  -- none is written while it waits to be read; and exactly the two pads that the command maps, vout and aout, are left.
  pub scene_wired :
      (p : Paths) (c : Scene F)
      → ((section c.title ≡ none) × (graph show before_end c ≡ none))
        ⊎ ((chains : List Chain) × (graph show before_end c ≡ some chains)
            × (wire_up (length (inputs show before_end p c)) chains []
                ≡ some (named (codes "vout") ∷ named (codes "aout") ∷ [])))
  unfolding graph
  scene_wired p c =
      let n = length (inputs show before_end p c) in
      let enough = length-inputs p c in
      let pip = has_pip show before_end c in
      let base = named (codes "base") in
      let loop =
        overlay_chains show before_end (codes "0.6") (is_full show before_end c) 1 base
          c.overlays in
      let start = cut_chains show before_end c.cut ++ start_chains show before_end c in
      elim (Option-cases (section c.title)) [
        | inl e ↦ inl (
          e,
          ap
              (λ o.
                o >>= λ card. some (start ++ (loop.0 ++ end_chains show before_end c card loop.1)))
              e,
        )
        | inr (card, e) ↦
            let rest = end_chains show before_end c card loop.1 in
            let (pads, laid, h) =
              overlay_chains-Ready show before_end (codes "0.6") (is_full show before_end c)
                (waiting pip) n 1 base c.overlays (started pip) (omega arith) (waiting-IsApart pip)
                (base-Ready n pip) in
            inr (
              start ++ (loop.0 ++ rest),
              ap
                  (λ o. o >>= λ card.
                    some (start ++ (loop.0 ++ end_chains show before_end c card loop.1)))
                  e,
              wire_up-append n start (loop.0 ++ rest) []
                  ∙ ap (λ o. o >>= wire_up n (loop.0 ++ rest)) (front n c (omega arith))
                  ∙ wire_up-append n loop.0 rest (started pip)
                  ∙ ap (λ o. o >>= wire_up n rest) laid
                  ∙ ending n c card loop.1 pads h.shape,
            )
      ]
