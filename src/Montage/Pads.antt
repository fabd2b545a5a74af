-- ===== src/Montage/Pads.antt =====
-- docs/video/edicion/montaje.py: how ffmpeg joins the chains of a filter graph by their pads.
use telematica_telemetria.Base.{
  ℕ, Bool, true, false, Option, none, some, List, [], ◌∷◌, ◌++◌, ◌≡◌, refl, if◌then◌else◌, ltb,
  ◌==◌, Option-cases, inl, inr, ◌>>=◌,
}
use telematica_telemetria.Base.Text.{text_eq}
use telematica_telemetria.Montage.Graph.{Pad, video, audio, card, layer, named, Chain}

abbrev pub same_pad : Pad → Pad → Bool
same_pad (video i) (video j) = i == j
same_pad (audio i) (audio j) = i == j
same_pad (card i) (card j) = i == j
same_pad (layer i) (layer j) = i == j
same_pad (named s) (named t) = text_eq s t
same_pad _ _ = false

-- take a pad out of those that are written and not read yet
abbrev pub take_out : Pad → List Pad → Option (List Pad)
take_out p [] = none
take_out p (q ∷ pads) =
    let later = take_out p pads in
    if same_pad p q then some pads else elim later [ none ↦ none | some rest ↦ some (q ∷ rest) ]

-- A stream of one of the `n` inputs can be read again and again, another pad once.
abbrev pub read_pad : ℕ → Pad → List Pad → Option (List Pad)
read_pad n (video i) pads = if ltb i n then some pads else none
read_pad n (audio i) pads = if ltb i n then some pads else none
read_pad n (card i) pads = take_out (card i) pads
read_pad n (layer i) pads = take_out (layer i) pads
read_pad n (named s) pads = take_out (named s) pads

abbrev pub read_pads : ℕ → List Pad → List Pad → Option (List Pad)
read_pads n [] pads = some pads
read_pads n (p ∷ ins) pads = read_pad n p pads >>= read_pads n ins

abbrev pub is_written : Pad → List Pad → Bool
is_written p [] = false
is_written p (q ∷ pads) = if same_pad p q then true else is_written p pads

-- no pad is written while it waits to be read
abbrev pub write_pads : List Pad → List Pad → Option (List Pad)
write_pads [] pads = some pads
write_pads (p ∷ outs) pads = if is_written p pads then none else write_pads outs (p ∷ pads)

-- The pads that are written and not read behind a series of chains. It is `none` where a chain reads a pad
-- that is not there, or writes one that is.
abbrev pub wire_up : ℕ → List Chain → List Pad → Option (List Pad)
wire_up n [] pads = some pads
wire_up n (c ∷ chains) pads = (read_pads n c.ins pads >>= write_pads c.outs) >>= wire_up n chains

pub wire_up-append :
    (n : ℕ) (chains more : List Chain) (pads : List Pad)
    → wire_up n (chains ++ more) pads ≡ (wire_up n chains pads >>= wire_up n more)
wire_up-append n [] more pads = refl
wire_up-append n (c ∷ chains) more pads =
    elim (Option-cases (read_pads n c.ins pads >>= write_pads c.outs)) [
      | inl e ↦ rw e refl
      | inr (left, e) ↦ rw e (wire_up-append n chains more left)
    ]
