-- ===== src/Server/Strings.antt =====
-- server/src/protocol.c: `tlp_split`, `tlp_valid_id`, `trim_crlf`, `parse_double`, and what they use of the C
-- library. A string is the list of its bytes in front of the NUL.
use telematica_telemetria.Base.{
  ℕ, zero, suc, ◌-◌, ◌^◌, Bool, true, false, not, ◌&&◌, ◌||◌, Option, none, some, List, [], ◌∷◌,
  length, leb, ◌==◌, if◌then◌else◌, min,
}
use telematica_telemetria.Base.Text.{Text, Bytes, is_digit, more_digits}
use telematica_telemetria.Node.State.{FloatOps}
use mathlib.Core.List.{reverse}

-- the string at the front of bytes
unfoldable pub until_nul : Bytes → Text
until_nul [] = []
until_nul (c ∷ s) = let rest = until_nul s in if c == 0 then [] else c ∷ rest

unfoldable pub trim_front : Text → Text
trim_front [] = []
trim_front (c ∷ s) = elim (c == b'\n' || c == b'\r') [ true ↦ trim_front s | false ↦ c ∷ s ]

-- `trim_crlf`
unfoldable pub trim_crlf : Text → Text
unfolding trim_front
trim_crlf s = reverse (trim_front (reverse s))

-- `strchr(p, '|')`: what is in front of the first bar, and what is behind it
unfoldable pub first_field : Text → Text × Option Text
first_field [] = ([], none)
first_field (c ∷ s) =
    let (field, rest) = first_field s in if c == b'|' then ([], some s) else (c ∷ field, rest)

-- `tlp_split`, with `max_fields` first
unfoldable pub tlp_split : ℕ → Text → List Text
unfolding first_field
tlp_split zero s = []
tlp_split (suc n) s =
    let (field, rest) = first_field s in
    field ∷ elim rest [ none ↦ [] | some more ↦ tlp_split n more ]

-- `isalnum` in the C locale, and the two other characters of an id
unfoldable pub is_id_char : ℕ → Bool
is_id_char c =
    is_digit c || (leb b'A' c && leb c b'Z') || (leb b'a' c && leb c b'z') || c == b'_' || c == b'-'

unfoldable pub all_id_chars : Text → Bool
unfolding is_id_char
all_id_chars [] = true
all_id_chars (c ∷ s) = is_id_char c && all_id_chars s

-- `tlp_valid_id`
unfoldable pub tlp_valid_id : Text → Bool
unfolding all_id_chars
tlp_valid_id id = not (length id == 0) && not (leb 32 (length id)) && all_id_chars id

-- `isspace` in the C locale
abbrev pub is_blank : ℕ → Bool
is_blank c = (leb 9 c && leb c 13) || c == 32

unfoldable pub skip_blanks : Text → Text
skip_blanks [] = []
skip_blanks (c ∷ s) = elim (is_blank c) [ true ↦ skip_blanks s | false ↦ c ∷ s ]

-- What `strtol` in base ten returns: the sign, the absolute value, and the rest of the string.
pub record Number : Type 0 where
  pub negative : Bool
  pub size : ℕ
  pub rest : Text

-- the digits behind the sign; without one, the rest is the whole string
unfoldable pub signed_digits : Bool → Text → Text → Number
signed_digits negative whole [] = record { negative = false; size = 0; rest = whole }
signed_digits negative whole (c ∷ s) =
    let (n, rest) = more_digits 0 (c ∷ s) in
    if is_digit c
    then record {
      negative = negative;
      size = min n (if negative then 2 ^ 63 else 2 ^ 63 - 1);
      rest = rest;
    }
    else record { negative = false; size = 0; rest = whole }

unfoldable pub after_blanks : Text → Text → Number
unfolding signed_digits
after_blanks whole [] = signed_digits false whole []
after_blanks whole (c ∷ s) =
    if c == b'-'
    then signed_digits true whole s
    else if c == b'+'
    then signed_digits false whole s
    else signed_digits false whole (c ∷ s)

-- `strtol(s, &end, 10)`
unfoldable pub strtol : Text → Number
unfolding after_blanks skip_blanks
strtol s = after_blanks s (skip_blanks s)

-- What the C library knows of doubles beside the operations of the node: `strtod`, which returns the
-- value, the number of characters that it read and whether it set `errno`, and the literal -10.0.
pub record Doubles (F : Type 0) : Type 0 where
  pub ops : FloatOps F
  pub strtod : Text → F × (ℕ × Bool)
  pub minus_ten : F

-- `parse_double`
unfoldable pub parse_double : {F : Type 0} → Doubles F → Text → Option F
parse_double dbl s =
    let (v, (read, failed)) = dbl.strtod s in
    if read == 0 || not (read == length s) || failed then none else some v
