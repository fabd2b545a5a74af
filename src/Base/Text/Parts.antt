-- ===== src/Base/Text/Parts.antt =====
-- `split` and `join` undo one another.
use mathlib.Core.Path.{◌≡◌, refl, ap, ◌∙◌}
use mathlib.Core.Logic.{◌≢◌}
use mathlib.Core.List.{List, [], ◌∷◌, ◌++◌}
use Prim.Native.Nat.{ℕ}
use mathlib.Core.Bool.{true, false}
use native.Mathlib.Omega.{arith}
use telematica_telemetria.Base.Lists.{All}
use telematica_telemetria.Base.Text.{Text, split, join, text_eq, contains}

-- A text without the separator.
abbrev pub Lacks : ℕ → Text → Type 0
Lacks sep = All (λ c. c ≢ sep)

split-part :
    (sep : ℕ) (p rest : Text) → Lacks sep p → split sep (p ++ sep ∷ rest) ≡ p ∷ split sep rest
unfolding split
split-part sep [] rest h = ground arith
split-part sep (c ∷ p) rest h = ground (arith, split-part sep p rest h.1)

split-last : (sep : ℕ) (p : Text) → Lacks sep p → split sep p ≡ p ∷ []
unfolding split
split-last sep [] h = refl
split-last sep (c ∷ p) h = ground (arith, split-last sep p h.1)

pub split-join :
    (sep : ℕ) (p : Text) (parts : List Text)
    → All (Lacks sep) (p ∷ parts)
    → split sep (join sep (p ∷ parts)) ≡ p ∷ parts
unfolding join
split-join sep p [] h = split-last sep p h.0
split-join sep p (q ∷ parts) h =
    split-part sep p (join sep (q ∷ parts)) h.0 ∙ ap (λ r. p ∷ r) (split-join sep q parts h.1)

pub text_eq→eq : (s t : Text) → text_eq s t ≡ true → s ≡ t
unfolding text_eq
text_eq→eq [] [] h = refl
text_eq→eq [] (b ∷ t) h = cc
text_eq→eq (a ∷ s) [] h = cc
text_eq→eq (a ∷ s) (b ∷ t) h = ground (arith, text_eq→eq s t)

pub text_eq_refl : (s : Text) → text_eq s s ≡ true
unfolding text_eq
text_eq_refl [] = refl
text_eq_refl (a ∷ s) = ground (arith, text_eq_refl s)

-- to decide it
pub Lacks-of_contains : (sep : ℕ) (s : Text) → contains sep s ≡ false → Lacks sep s
unfolding contains
Lacks-of_contains sep [] h = tt
Lacks-of_contains sep (c ∷ s) h = ground (arith, Lacks-of_contains sep s)
