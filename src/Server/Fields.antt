-- ===== src/Server/Fields.antt =====
-- server/src/protocol.c: how the server reads the fields that a client joins by bars and ends by a line
-- break.
use telematica_telemetria.Base.{
  ℕ, zero, suc, ◌<◌, none, some, List, [], ◌∷◌, ◌++◌, ◌≡◌, ◌≢◌, refl, arith, All, length, ap, ◌∙◌,
}
use telematica_telemetria.Base.Text.{Text, join}
use telematica_telemetria.Server.Strings.{until_nul, trim_front, trim_crlf, first_field, tlp_split}
use mathlib.Core.List.{reverse, reverse_aux, reverse-append, reverse-reverse}

-- a character that can stand in a field: printable ASCII, the space included, but no bar
abbrev pub IsPlain : ℕ → Type 0
IsPlain c = (31 < c) × (c < 127) × (c ≢ b'|')

-- no line break and no NUL either, in front of the bars and behind
abbrev pub IsLine : ℕ → Type 0
IsLine c = (31 < c) × (c < 128)

pub until_nul_all : (s : Text) → All (λ c. 0 < c) s → until_nul s ≡ s
unfolding until_nul
until_nul_all [] h = refl
until_nul_all (c ∷ s) h = ground (arith, until_nul_all s h.1)

pub trim_front_all : (s : Text) → All IsLine s → trim_front s ≡ s
unfolding trim_front
trim_front_all [] h = refl
trim_front_all (c ∷ s) h = ground arith

pub All-reverse_aux : (s t : Text) → All IsLine s → All IsLine t → All IsLine (reverse_aux s t)
All-reverse_aux [] t h g = g
All-reverse_aux (c ∷ s) t h g = All-reverse_aux s (c ∷ t) h.1 (h.0, g)

pub trim_crlf_line : (s : Text) → All IsLine s → trim_crlf (s ++ b'\n' ∷ []) ≡ s
unfolding trim_crlf trim_front
trim_crlf_line s h =
    ap (λ t. reverse (trim_front t)) (reverse-append s (b'\n' ∷ []))
    ∙ ap reverse (trim_front_all (reverse s) (All-reverse_aux s [] h tt))
    ∙ reverse-reverse s

first_field-bar : (p rest : Text) → All IsPlain p → first_field (p ++ b'|' ∷ rest) ≡ (p, some rest)
unfolding first_field
first_field-bar [] rest h = refl
first_field-bar (c ∷ p) rest h = ground (arith, first_field-bar p rest h.1)

first_field_last : (p : Text) → All IsPlain p → first_field p ≡ (p, none)
unfolding first_field
first_field_last [] h = refl
first_field_last (c ∷ p) h = ground (arith, first_field_last p h.1)

-- the fields are read as they were joined
pub tlp_split-join :
    (n : ℕ) (p : Text) (parts : List Text)
    → length parts < n
    → All (All IsPlain) (p ∷ parts)
    → tlp_split n (join b'|' (p ∷ parts)) ≡ p ∷ parts
unfolding tlp_split join
tlp_split-join zero p parts lt h = absurd (omega arith)
tlp_split-join (suc n) p [] lt h = rw (first_field_last p h.0) refl
tlp_split-join (suc n) p (q ∷ parts) lt h =
    rw (first_field-bar p (join b'|' (q ∷ parts)) h.0)
      (ap (λ r. p ∷ r) (tlp_split-join n q parts (omega arith) h.1))
