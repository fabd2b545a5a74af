-- ===== src/Operator/Prefix.antt =====
-- operator_client/operator_client.py: what `_readline` makes of a line that begins with plain text.
use telematica_telemetria.Base.{ℕ, ◌<◌, [], ◌∷◌, ◌++◌, ◌≡◌, ◌≢◌, refl, arith, ap, ◌∙◌, All}
use telematica_telemetria.Base.Text.{Text, Bytes}
use telematica_telemetria.Base.Codec.{decode, decode-prefix}
use telematica_telemetria.Operator.Receive.{strip_leading, read_text}
use mathlib.Core.List.{reverse, reverse_aux, reverse-append, reverse-reverse}

-- A character of ASCII that is no carriage return.
abbrev pub IsSolid : ℕ → Type 0
IsSolid c = (c < 128) × (c ≢ b'\r')

strip_leading_solid : (s : Text) → All IsSolid s → strip_leading b'\r' s ≡ s
unfolding strip_leading
strip_leading_solid [] h = refl
strip_leading_solid (c ∷ s) h = ground arith

strip_leading-append :
    (s t : Text) → All IsSolid t → strip_leading b'\r' (s ++ t) ≡ strip_leading b'\r' s ++ t
unfolding strip_leading
strip_leading-append [] t h = strip_leading_solid t h
strip_leading-append (c ∷ s) t h = ground (arith, strip_leading-append s t h)

All-reverse_aux : (s t : Text) → All IsSolid s → All IsSolid t → All IsSolid (reverse_aux s t)
All-reverse_aux [] t h g = g
All-reverse_aux (c ∷ s) t h g = All-reverse_aux s (c ∷ t) h.1 (h.0, g)

All-ascii : (s : Text) → All IsSolid s → All (λ c. c < 128) s
All-ascii [] h = tt
All-ascii (c ∷ s) h = (h.0.0, All-ascii s h.1)

-- what stands in front is read as it is
pub read_text-prefix : (p s : Bytes) → All IsSolid p → read_text (p ++ s) ≡ p ++ read_text s
unfolding read_text
read_text-prefix p s h =
    ap (λ t. reverse (strip_leading b'\r' (reverse t))) (decode-prefix p s (All-ascii p h))
    ∙ ap (λ t. reverse (strip_leading b'\r' t)) (reverse-append p (decode s))
    ∙ ap reverse (strip_leading-append (reverse (decode s)) (reverse p) (All-reverse_aux p [] h tt))
    ∙ reverse-append (strip_leading b'\r' (reverse (decode s))) (reverse p)
    ∙ ap (λ t. t ++ reverse (strip_leading b'\r' (reverse (decode s)))) (reverse-reverse p)
