-- ===== src/Montage/Wiring.antt =====
-- docs/video/edicion/montaje.py: the pads of the filter graph of `render_clip`.
use telematica_telemetria.Base.{
  ℕ, ◌+◌, ◌<◌, ◌≤◌, Bool, true, false, some, List, [], ◌∷◌, ◌++◌, ◌≡◌, refl, arith, length, ltb, ap,
  ◌∙◌, Bool-cases, Option-cases, inl, inr, ◌>>=◌, append_assoc, ◌⊎◌,
}
use telematica_telemetria.Base.Text.{Text, codes, text_eq}
use telematica_telemetria.Montage.Graph.{
  Pad, video, card, layer, named, Chain, Overlay, Scene, is_full, has_pip, cut_chains, base_chains,
  overlay_chains, card_chain, layer_chain, pip_chains,
}
use telematica_telemetria.Montage.Pads.{
  read_pad, read_pads, is_written, write_pads, wire_up, wire_up-append,
}
use telematica_telemetria.Montage.Command.{title_chain, subtitle_chain, end_chains, graph}

-- Pads without a card or a layer, which can wait while the overlays are laid.
pub record IsApart (wait : List Pad) : Type 0 where
  pub cards : (i : ℕ) → is_written (card i) wait ≡ false
  pub layers : (i : ℕ) → is_written (layer i) wait ≡ false

-- where the picture is: behind the others at first, and then in front
abbrev pub Shape : List Pad → Pad → List Pad → Type 0
Shape wait last pads =
    ((last ≡ named (codes "base")) × (pads ≡ wait ++ named (codes "base") ∷ []))
    ⊎ ((i : ℕ) × (last ≡ layer i) × (pads ≡ layer i ∷ wait))

-- The pads with the picture so far among them.
pub record Ready (n : ℕ) (wait : List Pad) (last : Pad) (pads : List Pad) : Type 0 where
  pub picture : read_pad n last pads ≡ some wait
  pub no_card : (i : ℕ) → is_written (card i) pads ≡ false
  pub apart : (i : ℕ) → read_pad n last (card i ∷ pads) ≡ some (card i ∷ wait)
  pub shape : Shape wait last pads

layer-Ready : (n i : ℕ) (wait : List Pad) → IsApart wait → Ready n wait (layer i) (layer i ∷ wait)
layer-Ready n i wait h = record {
  picture = ground arith;
  no_card = h.cards;
  apart = λ j. ground arith;
  shape = inr (i, refl, refl);
}

pub wire_step :
    (n : ℕ) (c : Chain) (chains : List Chain) (pads left : List Pad)
    → (read_pads n c.ins pads >>= write_pads c.outs) ≡ some left
    → wire_up n (c ∷ chains) pads ≡ wire_up n chains left
wire_step n c chains pads left e = ap (λ o. o >>= wire_up n chains) e

-- the card of an overlay
card_step :
    (n i : ℕ) (pads : List Pad)
    → i < n
    → is_written (card i) pads ≡ false
    → (read_pads n (video i ∷ []) pads >>= write_pads (card i ∷ [])) ≡ some (card i ∷ pads)
card_step n i pads lt h = ground arith

-- the layer with that card
layer_step :
    (n i : ℕ) (wait : List Pad) (last : Pad) (pads : List Pad)
    → is_written (layer i) wait ≡ false
    → read_pad n last (card i ∷ pads) ≡ some (card i ∷ wait)
    → (read_pads n (last ∷ card i ∷ []) (card i ∷ pads) >>= write_pads (layer i ∷ []))
      ≡ some (layer i ∷ wait)
layer_step n i wait last pads h e = rw e (ground arith)

module _ {F : Type 0} (show : F → Text) (before_end : F → F) where
  pub overlay_chains-Ready :
      (d : Text) (full : Bool) (wait : List Pad) (n i : ℕ) (last : Pad)
      (overlays : List (Overlay F)) (pads : List Pad)
      → i + length overlays ≤ n
      → IsApart wait
      → Ready n wait last pads
      → (pads' : List Pad) × (wire_up n
            (overlay_chains show before_end d full i last overlays).0
            pads
          ≡ some pads')
        × (Ready n wait (overlay_chains show before_end d full i last overlays).1 pads')
  unfolding overlay_chains
  overlay_chains-Ready d full wait n i last [] pads lt a h = (pads, refl, h)
  overlay_chains-Ready d full wait n i last (o ∷ overlays) pads lt a h =
      let chains = (overlay_chains show before_end d full (i + 1) (layer i) overlays).0 in
      let (pads', e, h') =
        overlay_chains-Ready d full wait n (i + 1) (layer i) overlays (layer i ∷ wait) (omega arith)
          a (layer-Ready n i wait a) in
      (
        pads',
        wire_step n (card_chain show before_end d full i o)
              (layer_chain show before_end full i last o ∷ chains) pads (card i ∷ pads)
              (card_step n i pads (omega arith) (h.no_card i))
            ∙ wire_step n (layer_chain show before_end full i last o) chains (card i ∷ pads)
                (layer i ∷ wait) (layer_step n i wait last pads (a.layers i) (h.apart i))
            ∙ e,
        h',
      )

-- what waits while the overlays are laid: the sound, and the small picture if there is one
abbrev waiting : Bool → List Pad
waiting true = named (codes "pip") ∷ named (codes "aout") ∷ []
waiting false = named (codes "aout") ∷ []

abbrev started : Bool → List Pad
started true = named (codes "pip") ∷ named (codes "aout") ∷ named (codes "base") ∷ []
started false = named (codes "aout") ∷ named (codes "base") ∷ []

waiting-IsApart : (pip : Bool) → IsApart (waiting pip)
waiting-IsApart true = record { cards = λ i. refl; layers = λ i. refl }
waiting-IsApart false = record { cards = λ i. refl; layers = λ i. refl }

base-Ready : (n : ℕ) (pip : Bool) → Ready n (waiting pip) (named (codes "base")) (started pip)
unfolding text_eq
base-Ready n true = record {
  picture = refl;
  no_card = λ j. refl;
  apart = λ j. refl;
  shape = inl (refl, refl);
}
base-Ready n false = record {
  picture = refl;
  no_card = λ j. refl;
  apart = λ j. refl;
  shape = inl (refl, refl);
}

module _ {F : Type 0} (show : F → Text) (before_end : F → F) where
  -- the pads in front of the overlays
  front :
      (n : ℕ) (c : Scene F)
      → 0 < n
      → wire_up n (cut_chains show before_end c.cut ++ base_chains show before_end c) []
        ≡ some (started (has_pip show before_end c))
  unfolding cut_chains base_chains text_eq
  front n c lt =
      let inputs : ltb 0 n ≡ true = ground arith in
      elim (Bool-cases (has_pip show before_end c)) [
        | inl pip ↦ elim (Option-cases c.cut) [
          | inl e ↦ rw (pip, e, cut_chains, inputs) refl
          | inr (cut, e) ↦ rw (pip, e, cut_chains, inputs) refl
        ]
        | inr alone ↦ elim (Option-cases c.cut) [
          | inl e ↦ rw (alone, e, cut_chains, inputs) refl
          | inr (cut, e) ↦ rw (alone, e, cut_chains, inputs) refl
        ]
      ]

  -- the pads behind the overlays
  ending :
      (n : ℕ) (c : Scene F) (last : Pad) (pads : List Pad)
      → read_pad n last pads ≡ some (waiting (has_pip show before_end c))
      → wire_up n
          ((pip_chains show before_end c last).0
            ++ title_chain show before_end c (pip_chains show before_end c last).1
              ∷ subtitle_chain show before_end c
              ∷ [])
          pads
        ≡ some (named (codes "vout") ∷ named (codes "aout") ∷ [])
  unfolding pip_chains title_chain subtitle_chain text_eq
  ending n c last pads e = elim (Bool-cases (has_pip show before_end c)) [
    | inl pip ↦ rw (pip_chains, pip) (rw (e ∙ ap (λ b. some (waiting b)) pip) refl)
    | inr alone ↦ rw (pip_chains, alone) (rw (e ∙ ap (λ b. some (waiting b)) alone) refl)
  ]

  -- Whatever the cut, the camera and the overlays are: every chain of the graph reads streams of the
  -- inputs that the command has, one and one for each overlay, and pads that an earlier chain has written
  -- and that no other has read; none is written while it waits to be read; and exactly the two pads that the command maps,
  -- vout and aout, are left.
  pub graph_wired :
      (c : Scene F)
      → wire_up (length c.overlays + 1) (graph show before_end c) []
        ≡ some (named (codes "vout") ∷ named (codes "aout") ∷ [])
  unfolding graph end_chains
  graph_wired c =
      let n = length c.overlays + 1 in
      let pip = has_pip show before_end c in
      let base = named (codes "base") in
      let loop =
        overlay_chains show before_end (codes "0.4") (is_full show before_end c) 1 base
          c.overlays in
      let cuts = cut_chains show before_end c.cut in
      let bases = base_chains show before_end c in
      let pips = (pip_chains show before_end c loop.1).0 in
      let rest =
        title_chain show before_end c (pip_chains show before_end c loop.1).1
        ∷ subtitle_chain show before_end c
        ∷ [] in
      let (pads, e, h) =
        overlay_chains-Ready show before_end (codes "0.4") (is_full show before_end c) (waiting pip)
          n 1 base c.overlays (started pip) (omega arith) (waiting-IsApart pip)
          (base-Ready n pip) in
      wire_up-append n (cuts ++ bases) ((loop.0 ++ pips) ++ rest) []
      ∙ ap (λ o. o >>= wire_up n ((loop.0 ++ pips) ++ rest)) (front n c (omega arith))
      ∙ ap (λ t. wire_up n t (started pip)) (append_assoc loop.0 pips rest)
      ∙ wire_up-append n loop.0 (pips ++ rest) (started pip)
      ∙ ap (λ o. o >>= wire_up n (pips ++ rest)) e
      ∙ ending n c loop.1 pads h.picture
