-- ===== src/Montage/Split.antt =====
-- docs/video/edicion/montaje.py: what the source uses of `str.split` with a limit and of `str.replace`.
use telematica_telemetria.Base.{
  ℕ, zero, suc, ◌-◌, Option, none, some, ◌>>=◌, [], ◌∷◌, ◌++◌, if◌then◌else◌, length,
}
use telematica_telemetria.Base.Text.{Text, starts_with}
use telematica_telemetria.Montage.Lines.{drop}

-- `s.split(sep, 1)`: the two parts at the first `sep`, or `none` for the single part
unfoldable pub split_once : Text → Text → Option (Text × Text)
unfolding starts_with drop
split_once sep [] = none
split_once sep (c ∷ s) =
    let later = split_once sep s >>= λ (a, b). some (c ∷ a, b) in
    if starts_with sep (c ∷ s) then some ([], drop (length sep) (c ∷ s)) else later

-- `s.replace(old, new)` behind `skip` more characters of an occurrence; `old` is not empty
unfoldable pub replace_from : Text → Text → ℕ → Text → Text
unfolding starts_with
replace_from old new skip [] = []
replace_from old new (suc skip) (c ∷ s) = replace_from old new skip s
replace_from old new zero (c ∷ s) =
    let found = replace_from old new (length old - 1) s in
    let onward = replace_from old new zero s in
    if starts_with old (c ∷ s) then new ++ found else c ∷ onward

unfoldable pub replace : Text → Text → Text → Text
unfolding replace_from
replace old new s = replace_from old new zero s
