-- ===== src/Server/Sane.antt =====
-- server/src/state.c: what is true of the table of nodes at all times.
use telematica_telemetria.Base.{
  All-set, ℕ, zero, suc, ◌≤◌, true, false, not, none, some, List, [], ◌∷◌, ◌≡◌, refl, arith, length,
  All, get_elem?, set, Bool-cases, inl, inr, ap, sym, ◌∙◌, length-set,
}
use telematica_telemetria.Base.Text.{Text, text_eq}
use telematica_telemetria.Server.Strings.{tlp_valid_id}
use telematica_telemetria.Server.Slots.{Slot, is_node, find_node, at_node, take_free}
use telematica_telemetria.Base.Text.Parts.{text_eq→eq, text_eq_refl}
use telematica_telemetria.Server.Table.{
  Keeps, find_node-take_free, take_free_cases, length-at_node, length-take_free,
}

-- A used slot has a valid id, at most eight variables, and the mark of a silent node exactly while it is
-- not active.
pub record IsGood (n : Slot) : Type 0 where
  pub valid : n.used ≡ true → tlp_valid_id n.id ≡ true
  pub vars : length n.vars ≤ 8
  pub marked : n.used ≡ true → n.inactive_alerted ≡ not n.active

-- No id stands in two used slots.
abbrev pub Distinct : List Slot → Type 0
Distinct [] = Unit
Distinct (n ∷ slots) = (n.used ≡ true → find_node n.id slots ≡ none) × Distinct slots

pub record IsSane (slots : List Slot) : Type 0 where
  pub size : length slots ≡ 64
  pub good : All IsGood slots
  pub distinct : Distinct slots

absent-at_node :
    (id q : Text) (f : Slot → Slot) (slots : List Slot)
    → Keeps f
    → find_node q slots ≡ none
    → find_node q (at_node id f slots) ≡ none
unfolding find_node at_node is_node
absent-at_node id q f [] k h = refl
absent-at_node id q f (n ∷ slots) k h = ground (arith, k n, absent-at_node id q f slots k)

Distinct-at_node :
    (id : Text) (f : Slot → Slot) (slots : List Slot)
    → Keeps f
    → Distinct slots
    → Distinct (at_node id f slots)
unfolding at_node
Distinct-at_node id f [] k h = tt
Distinct-at_node id f (n ∷ slots) k h = elim (Bool-cases (is_node id n)) [
  | inl e ↦ rw e ((λ u. rw ((k n).1) (h.0 (sym (k n).0 ∙ u))), h.1)
  | inr e ↦
      rw e ((λ u. absent-at_node id n.id f slots k (h.0 u)), Distinct-at_node id f slots k h.1)
]

-- what holds of every slot
module _ (P : Slot → Type 0) where
  pub All-at_node :
      (id : Text) (f : Slot → Slot) (slots : List Slot)
      → ((n : Slot) → P n → P (f n))
      → All P slots
      → All P (at_node id f slots)
  unfolding at_node
  All-at_node id f [] g h = tt
  All-at_node id f (n ∷ slots) g h = elim (Bool-cases (is_node id n)) [
    | inl e ↦ rw e (g n h.0, h.1)
    | inr e ↦ rw e (h.0, All-at_node id f slots g h.1)
  ]

  -- what holds of a slot that is taken, and of the others
  pub All-take_free :
      (new : Slot) (slots slots' : List Slot)
      → P new
      → All P slots
      → take_free new slots ≡ some slots'
      → All P slots'
  unfolding take_free
  All-take_free new [] slots' g h e = cc
  All-take_free new (n ∷ slots) slots' g h e = elim (take_free_cases new n slots slots' e) [
    | inl (free, same) ↦ rw (← same) (g, h.1)
    | inr (used, (rest, found, same)) ↦ rw (← same) (h.0, All-take_free new slots rest g h.1 found)
  ]

-- A change that keeps ids and the good of a slot keeps the table sane.
pub at_node-IsSane :
    (id : Text) (f : Slot → Slot) (slots : List Slot)
    → Keeps f
    → ((n : Slot) → IsGood n → IsGood (f n))
    → IsSane slots
    → IsSane (at_node id f slots)
at_node-IsSane id f slots k g h = record {
  size = length-at_node id f slots ∙ h.size;
  good = All-at_node IsGood id f slots g h.good;
  distinct = Distinct-at_node id f slots k h.distinct;
}

Distinct-take_free :
    (new : Slot) (slots slots' : List Slot)
    → new.used ≡ true
    → find_node new.id slots ≡ none
    → Distinct slots
    → take_free new slots ≡ some slots'
    → Distinct slots'
unfolding take_free find_node is_node
Distinct-take_free new [] slots' u f h e = cc
Distinct-take_free new (n ∷ slots) slots' u f h e = elim (take_free_cases new n slots slots' e) [
  | inl (free, same) ↦ rw (← same) ((λ _. ground (arith)), h.1)
  | inr (used, (rest, found, same)) ↦
      let absent : find_node new.id slots ≡ none = ground arith in
      let other : text_eq new.id n.id ≡ false =
        ground (arith, text_eq→eq new.id n.id, text_eq_refl n.id) in
      rw (← same) (
        (λ v. find_node-take_free n.id new slots rest u absent found ∙ rw other (h.0 v)),
        Distinct-take_free new slots rest u absent h.1 found,
      )
]

pub take_free-IsSane :
    (new : Slot) (slots slots' : List Slot)
    → new.used ≡ true
    → find_node new.id slots ≡ none
    → IsGood new
    → take_free new slots ≡ some slots'
    → IsSane slots
    → IsSane slots'
take_free-IsSane new slots slots' u f g e h = record {
  size = length-take_free new slots slots' e ∙ h.size;
  good = All-take_free IsGood new slots slots' g h.good e;
  distinct = Distinct-take_free new slots slots' u f h.distinct e;
}

-- the same node, but for what `state_find_node` does not look at
abbrev pub IsSame : Slot → Slot → Type 0
IsSame n n' = (n'.used ≡ n.used) × (n'.id ≡ n.id)

absent-set :
    (q : Text) (slots : List Slot) (i : ℕ) (n n' : Slot)
    → get_elem? slots i ≡ some n
    → IsSame n n'
    → find_node q slots ≡ none
    → find_node q (set slots i n') ≡ none
unfolding find_node is_node
absent-set q [] i n n' e s h = refl
absent-set q (m ∷ slots) zero n n' e s h = ground (arith, s)
absent-set q (m ∷ slots) (suc i) n n' e s h = ground (arith, absent-set q slots i n n' e s)

Distinct-set :
    (slots : List Slot) (i : ℕ) (n n' : Slot)
    → get_elem? slots i ≡ some n
    → IsSame n n'
    → Distinct slots
    → Distinct (set slots i n')
Distinct-set [] i n n' e s h = tt
Distinct-set (m ∷ slots) zero n n' e s h =
    let same : m ≡ n = cc in
    ((λ u. rw (s.1, ← same) (h.0 (ap (λ (k : Slot). k.used) same ∙ sym s.0 ∙ u))), h.1)
Distinct-set (m ∷ slots) (suc i) n n' e s h =
    ((λ u. absent-set m.id slots i n n' e s (h.0 u)), Distinct-set slots i n n' e s h.1)

pub set-IsSane :
    (slots : List Slot) (i : ℕ) (n n' : Slot)
    → get_elem? slots i ≡ some n
    → IsSame n n'
    → IsGood n'
    → IsSane slots
    → IsSane (set slots i n')
set-IsSane slots i n n' e s g h = record {
  size = length-set slots i n' ∙ h.size;
  good = All-set IsGood slots i n' g h.good;
  distinct = Distinct-set slots i n n' e s h.distinct;
}
