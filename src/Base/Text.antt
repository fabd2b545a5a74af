-- ===== src/Base/Text.antt =====
-- Python's `str` as a list of code points and `bytes` as a list of bytes, with the methods of the
-- two that the clients call.
pub mod Parts
pub mod Numbers
use Prim.Native.Char.{code}
use Prim.Native.String.{String}
use Prim.Native.Nat.{ℕ, ◌-◌, zero, suc, ◌+◌, ◌*◌, ◌/◌, ◌%◌}
use mathlib.Core.Path.{◌≡◌, refl}
use mathlib.Core.Bool.{Bool, true, false, ◌&&◌, ◌||◌}
use mathlib.Core.List.{List, [], ◌∷◌, ◌++◌, reverse}
use mathlib.Core.Logic.{◌≢◌}
use telematica_telemetria.Base.Lists.{All, length}
use telematica_telemetria.Base.Tests.{leb, ◌==◌, if◌then◌else◌}

abbrev pub Text : Type 0
Text = List ℕ

abbrev pub Bytes : Type 0
Bytes = List ℕ

abbrev pub codes : String → Text
codes String.[] = []
codes (String.◌∷◌ c s) = code c ∷ codes s

unfoldable pub text_eq : Text → Text → Bool
text_eq [] [] = true
text_eq (a ∷ s) (b ∷ t) = a == b && text_eq s t
text_eq _ _ = false

-- `s.startswith(p)`
unfoldable pub starts_with : Text → Text → Bool
starts_with [] s = true
starts_with (a ∷ p) [] = false
starts_with (a ∷ p) (b ∷ s) = a == b && starts_with p s

-- `s.endswith(b"\n")`
unfoldable pub ends_in : ℕ → Bytes → Bool
ends_in c [] = false
ends_in c (a ∷ []) = a == c
ends_in c (a ∷ b ∷ s) = ends_in c (b ∷ s)

-- `sep in s`
unfoldable pub contains : ℕ → Bytes → Bool
contains c [] = false
contains c (a ∷ s) = a == c || contains c s

-- `str.isspace` of one character
unfoldable pub is_space : ℕ → Bool
is_space c =
    (leb 9 c && leb c 13)
    || (leb 28 c && leb c 32)
    || c == 133
    || c == 160
    || c == 5760
    || (leb 8192 c && leb c 8202)
    || c == 8232
    || c == 8233
    || c == 8239
    || c == 8287
    || c == 12288

unfoldable pub lstrip : Text → Text
unfolding is_space
lstrip [] = []
lstrip (c ∷ s) = elim (is_space c) [ true ↦ lstrip s | false ↦ c ∷ s ]

-- `s.strip()`
unfoldable pub strip : Text → Text
unfolding lstrip
strip s = reverse (lstrip (reverse (lstrip s)))

-- `sep.join(parts)`
unfoldable pub join : ℕ → List Text → Text
join sep [] = []
join sep (s ∷ []) = s
join sep (s ∷ t ∷ rest) = s ++ sep ∷ join sep (t ∷ rest)

-- one more character in front of the first part
abbrev pub push : ℕ → List Text → List Text
push c [] = (c ∷ []) ∷ []
push c (p ∷ parts) = (c ∷ p) ∷ parts

-- `s.split(sep)`
unfoldable pub split : ℕ → Text → List Text
split sep [] = [] ∷ []
split sep (c ∷ s) = let parts = split sep s in if c == sep then [] ∷ parts else push c parts

-- `n` copies of a character
abbrev pub repeat : ℕ → ℕ → Text
repeat c zero = []
repeat c (suc n) = c ∷ repeat c n

-- `f"{s:<n}"` and `f"{s:>n}"`
unfoldable pub ljust : ℕ → Text → Text
ljust n s = s ++ repeat 32 (n - length s)

unfoldable pub rjust : ℕ → Text → Text
rjust n s = repeat 32 (n - length s) ++ s

-- `str(n)`; the fuel is one more than `n`, and every round divides by ten
digits : ℕ → ℕ → Text → Text
digits zero n out = out
digits (suc fuel) n out =
    let out' = (b'0' + n % 10) ∷ out in
    elim (leb n 9) [ true ↦ out' | false ↦ digits fuel (n / 10) out' ]

unfoldable pub show_nat : ℕ → Text
unfolding digits
show_nat n = digits (suc n) n []

-- a decimal digit, of ASCII
abbrev pub is_digit : ℕ → Bool
is_digit c = leb b'0' c && leb c b'9'

-- the digits at the front of a text, behind the number `n`, and what is left
unfoldable pub more_digits : ℕ → Text → ℕ × Text
more_digits n [] = (n, [])
more_digits n (c ∷ s) =
    let onward = more_digits (n * 10 + (c - b'0')) s in if is_digit c then onward else (n, c ∷ s)

show-1204 : show_nat 1204 ≡ codes "1204"
unfolding show_nat
show-1204 = refl

strip-both : strip (codes "\t OK|BYE \r\n") ≡ codes "OK|BYE"
unfolding strip
strip-both = refl

-- A text without line breaks.
abbrev pub OneLine : Bytes → Type 0
OneLine = All (λ c. c ≢ b'\n')
