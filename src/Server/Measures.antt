-- ===== src/Server/Measures.antt =====
-- server/src/state.c: the measures of a node as a dictionary.
use telematica_telemetria.Base.{
  ℕ, ◌<◌, Bool, true, false, not, ◌&&◌, ◌||◌, ◌⊎◌, Option, none, some, List, [], ◌∷◌, ◌++◌, ◌≡◌,
  refl, arith, leb, length, if◌then◌else◌, Bool-cases, Option-cases, inl, inr, ap, sym, ◌∙◌,
}
use telematica_telemetria.Base.Text.{Text, text_eq}
use telematica_telemetria.Base.Text.Parts.{text_eq→eq}
use telematica_telemetria.Server.Slots.{
  Slot, Measure, overwrite, set_measure, max_vars, var_len, val_len, cut,
}
use telematica_telemetria.Server.Table.{cut_all}

-- the measure of a variable
abbrev pub find_measure : Text → List Measure → Option Measure
find_measure q [] = none
find_measure q (m ∷ vars) = if text_eq m.name q then some m else find_measure q vars

abbrev is_there : Option Measure → Bool
is_there none = false
is_there (some m) = true

-- a dictionary behind an insertion, which eight other variables refuse
abbrev pub with_measure : ℕ → Text → Text → Slot → Text → Option Measure
with_measure now var value n q =
    if text_eq var q && (is_there (find_measure var n.vars) || not (leb max_vars (length n.vars)))
    then some (record { name = var; value = value; at = now })
    else find_measure q n.vars

-- the two ways to overwrite
overwrite_cases :
    (now : ℕ) (var value : Text) (m : Measure) (vars vars' : List Measure)
    → overwrite now var value (m ∷ vars) ≡ some vars'
    → ((text_eq m.name var ≡ true)
        × (record m { value = cut val_len value; at = now } ∷ vars ≡ vars'))
      ⊎ ((text_eq m.name var ≡ false)
          × ((rest : List Measure) × (overwrite now var value vars ≡ some rest)
              × (m ∷ rest ≡ vars')))
unfolding overwrite
overwrite_cases now var value m vars vars' e = elim (Bool-cases (text_eq m.name var)) [
  | inl here ↦ inl (here, ground arith)
  | inr later ↦ elim (Option-cases (overwrite now var value vars)) [
    | inl nowhere ↦ absurd (ground arith)
    | inr (rest, found) ↦ inr (later, (rest, found, ground arith))
  ]
]

same_name : (a b c : Text) → text_eq b c ≡ true → text_eq a c ≡ text_eq a b
same_name a b c e = ap (text_eq a) (sym (text_eq→eq b c e))

same_left : (a b c : Text) → text_eq a b ≡ true → text_eq a c ≡ text_eq b c
same_left a b c e = ap (λ t. text_eq t c) (text_eq→eq a b e)

find_measure-overwrite :
    (now : ℕ) (var value q : Text) (vars vars' : List Measure)
    → overwrite now var value vars ≡ some vars'
    → find_measure q vars' ≡ (
        if text_eq var q
        then some (record { name = var; value = cut val_len value; at = now })
        else find_measure q vars)
unfolding overwrite
find_measure-overwrite now var value q [] vars' e = cc
find_measure-overwrite now var value q (m ∷ vars) vars' e =
    elim (overwrite_cases now var value m vars vars' e) [
      | inl (here, same) ↦
          let name : m.name ≡ var = text_eq→eq m.name var here in
          rw (← same) (simp name (ground arith))
      | inr (later, (rest, found, same)) ↦ rw (← same) (
          ground
            (arith, find_measure-overwrite now var value q vars rest found, same_name m.name var q))
    ]

find_measure-none :
    (now : ℕ) (var value : Text) (vars : List Measure)
    → overwrite now var value vars ≡ none
    → find_measure var vars ≡ none
unfolding overwrite
find_measure-none now var value [] e = refl
find_measure-none now var value (m ∷ vars) e = ground (arith, find_measure-none now var value vars)

find_measure-some :
    (now : ℕ) (var value : Text) (vars vars' : List Measure)
    → overwrite now var value vars ≡ some vars'
    → (m : Measure) × (find_measure var vars ≡ some m)
unfolding overwrite
find_measure-some now var value [] vars' e = cc
find_measure-some now var value (m ∷ vars) vars' e =
    elim (overwrite_cases now var value m vars vars' e) [
      | inl (here, same) ↦ (m, ground arith)
      | inr (later, (rest, found, same)) ↦
          let (k, there) = find_measure-some now var value vars rest found in (k, ground arith)
    ]

find_measure-append :
    (q : Text) (m : Measure) (vars : List Measure)
    → find_measure m.name vars ≡ none
    → find_measure q (vars ++ m ∷ []) ≡ (if text_eq m.name q then some m else find_measure q vars)
find_measure-append q m [] h = refl
find_measure-append q m (k ∷ vars) h =
    ground (arith, find_measure-append q m vars, same_name k.name m.name q)

-- `state_set_measure` is an insertion into a dictionary of eight variables at most, for a name and a value
-- that fit their fields.
pub set_measure_refines :
    (now : ℕ) (var value q : Text) (n : Slot)
    → length var < var_len
    → length value < val_len
    → find_measure q (set_measure now var value n).vars ≡ with_measure now var value n q
unfolding set_measure
set_measure_refines now var value q n hv hl =
    let name = cut_all var_len var hv in
    let kept = cut_all val_len value hl in
    elim (Option-cases (overwrite now var value n.vars)) [
      | inr (vars, e) ↦
          let (m, there) = find_measure-some now var value n.vars vars e in
          rw (e, set_measure)
            (find_measure-overwrite now var value q n.vars vars e ∙ ground (arith, there, kept))
      | inl e ↦
          let absent = find_measure-none now var value n.vars e in
          elim (Bool-cases (leb max_vars (length n.vars))) [
            | inl full ↦ rw (e, set_measure, full) (ground (arith, absent, full))
            | inr room ↦
                rw (e, set_measure, room, name, kept)
                  (find_measure-append q (record { name = var; value = value; at = now }) n.vars
                      absent
                    ∙ ground (arith, absent, room))
          ]
    ]
