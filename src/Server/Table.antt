-- ===== src/Server/Table.antt =====
-- server/src/state.c: the table of nodes as a dictionary from ids to nodes.
use telematica_telemetria.Base.{
  ℕ, suc, ◌<◌, true, false, Option, none, some, List, [], ◌∷◌, ◌≡◌, refl, arith, length, take,
  take_all, Bool, ◌&&◌, ◌-◌, if◌then◌else◌, Bool-cases, Option-cases, inl, inr, ◌⊎◌, ap, sym, ◌∙◌,
}
use std.Path.{ap₂}
use telematica_telemetria.Base.Text.{Text, text_eq}
use telematica_telemetria.Base.Text.Parts.{text_eq→eq, text_eq_refl}
use telematica_telemetria.Server.Slots.{
  Slot, is_node, find_node, at_node, take_free, new_slot, renew, register_node, count_nodes, cut,
  id_len,
}

-- A change that keeps what `state_find_node` looks at.
abbrev pub Keeps : (Slot → Slot) → Type 0
Keeps f = (n : Slot) → ((f n).used ≡ n.used) × ((f n).id ≡ n.id)

abbrev pub changed : (Slot → Slot) → Option Slot → Option Slot
changed f none = none
changed f (some n) = some (f n)

-- the node of another id is another slot
pub other_node :
    (id q : Text) (n : Slot) → text_eq id q ≡ false → is_node id n ≡ true → is_node q n ≡ false
unfolding is_node
other_node id q n e h = let id_same = text_eq→eq n.id id in ground (arith, id_same)

same_node : (id q : Text) (n : Slot) → text_eq id q ≡ true → is_node q n ≡ is_node id n
same_node id q n e = ap (λ t. is_node t n) (sym (text_eq→eq id q e))

is_node_kept : (f : Slot → Slot) (q : Text) (n : Slot) → Keeps f → is_node q (f n) ≡ is_node q n
unfolding is_node
is_node_kept f q n k = rw ((k n).0, (k n).1) refl

pub find_node-at_node :
    (id q : Text) (f : Slot → Slot) (slots : List Slot)
    → Keeps f
    → find_node q (at_node id f slots)
      ≡ (if text_eq id q then changed f (find_node id slots) else find_node q slots)
unfolding find_node at_node
find_node-at_node id q f [] k = ground arith
find_node-at_node id q f (n ∷ slots) k = ground (
  arith,
  find_node-at_node id q f slots k,
  other_node id q n,
  same_node id q n,
  is_node_kept f q n k,
)

-- how a free slot is found
pub take_free_cases :
    (new n : Slot) (slots slots' : List Slot)
    → take_free new (n ∷ slots) ≡ some slots'
    → ((n.used ≡ false) × (new ∷ slots ≡ slots'))
      ⊎ ((n.used ≡ true)
          × ((rest : List Slot) × (take_free new slots ≡ some rest) × (n ∷ rest ≡ slots')))
unfolding take_free
take_free_cases new n slots slots' e = elim (Bool-cases n.used) [
  | inr free ↦ inl (free, ground arith)
  | inl used ↦ elim (Option-cases (take_free new slots)) [
    | inl full ↦ absurd (ground arith)
    | inr (rest, found) ↦ inr (used, (rest, found, ground arith))
  ]
]

pub find_node-take_free :
    (q : Text) (new : Slot) (slots slots' : List Slot)
    → new.used ≡ true
    → find_node new.id slots ≡ none
    → take_free new slots ≡ some slots'
    → find_node q slots' ≡ (if text_eq new.id q then some new else find_node q slots)
unfolding find_node take_free is_node
find_node-take_free q new [] slots' u f e = cc
find_node-take_free q new (n ∷ slots) slots' u f e = elim (take_free_cases new n slots slots' e) [
  | inl (free, same) ↦ rw (← same) (ground (arith, text_eq_refl new.id))
  | inr (used, (rest, found, same)) ↦ rw (← same) (
      ground
        (arith, find_node-take_free q new slots rest, other_node new.id q n, same_node new.id q n))
]

pub length-at_node :
    (id : Text) (f : Slot → Slot) (slots : List Slot) → length (at_node id f slots) ≡ length slots
unfolding at_node
length-at_node id f [] = refl
length-at_node id f (n ∷ slots) = ground (arith, length-at_node id f slots)

pub length-take_free :
    (new : Slot) (slots slots' : List Slot)
    → take_free new slots ≡ some slots'
    → length slots' ≡ length slots
unfolding take_free
length-take_free new [] slots' e = cc
length-take_free new (n ∷ slots) slots' e = elim (take_free_cases new n slots slots' e) [
  | inl (free, same) ↦ ap length (sym same)
  | inr (used, (rest, found, same)) ↦
      ap length (sym same) ∙ ap suc (length-take_free new slots rest found)
]

-- there is no free slot only where all are used
take_free_full :
    (new : Slot) (slots : List Slot)
    → take_free new slots ≡ none
    → (count_nodes slots).0 ≡ length slots
unfolding take_free count_nodes
take_free_full new [] e = refl
take_free_full new (n ∷ slots) e = ground (arith, take_free_full new slots)

-- what a node that was there had, or what a new one begins with
abbrev pub had : {A : Type 0} → (Slot → A) → A → Option Slot → A
had field start none = start
had field start (some n) = field n

-- The node of `id` behind a registration: all its fields.
abbrev pub registered : ℕ → Text → Text → Option Slot → Slot
registered now id loc old = record {
  used = true;
  id = id;
  location = take 63 loc;
  active = true;
  registered_at = had (λ n. n.registered_at) now old;
  last_seen = now;
  counts = record {
    last_seq = 0;
    received = had (λ n. n.counts.received) 0 old;
    lost = had (λ n. n.counts.lost) 0 old;
  };
  alerts = had (λ n. n.alerts) 0 old;
  inactive_alerted = false;
  vars = had (λ n. n.vars) [] old;
}

-- Either the table refuses a node that is not there, since every slot is used; or the slot of the node is
-- `registered`, field by field, and no other node has changed.
abbrev pub Registers : ℕ → Text → Text → List Slot → Option (List Slot) → Type 0
Registers now id loc slots none =
    (find_node id slots ≡ none) × ((count_nodes slots).0 ≡ length slots)
Registers now id loc slots (some slots') =
    ((q : Text)
      → find_node q slots' ≡ (
          if text_eq id q
          then some (registered now id loc (find_node id slots))
          else find_node q slots))
    × (length slots' ≡ length slots)

-- the node that is found is used and has the id
pub found_node :
    (id : Text) (slots : List Slot) (n : Slot)
    → find_node id slots ≡ some n
    → (n.used ≡ true) × (n.id ≡ id)
unfolding find_node is_node
found_node id [] n e = cc
found_node id (m ∷ slots) n e = elim (Bool-cases (m.used && text_eq m.id id)) [
  | inl here ↦
      let same : some m ≡ some n = ground arith in let id_same = text_eq→eq m.id id in ground arith
  | inr later ↦ found_node id slots n (ground arith)
]

renew-registered :
    (now : ℕ) (id loc : Text) (n : Slot)
    → n.used ≡ true
    → n.id ≡ id
    → renew now loc n ≡ registered now id loc (some n)
unfolding renew
renew-registered now id loc n u e =
    ap₂
      (λ (used : Bool) (name : Text). record n {
        used = used;
        id = name;
        location = take 63 loc;
        active = true;
        last_seen = now;
        counts = record n.counts { last_seq = 0 };
        inactive_alerted = false;
      })
      u e

pub cut_all : (n : ℕ) (s : Text) → length s < n → cut n s ≡ s
cut_all n s h = take_all (n - 1) s (omega arith)

new_slot-registered :
    (now : ℕ) (id loc : Text)
    → length id < id_len
    → renew now loc (new_slot now id) ≡ registered now id loc none
unfolding renew new_slot
new_slot-registered now id loc h =
    ap (λ name. record (registered now id loc none) { id = name }) (cut_all id_len id h)

pub renew-Keeps : (now : ℕ) (loc : Text) → Keeps (renew now loc)
unfolding renew
renew-Keeps now loc n = (refl, refl)

pub new_slot_found :
    (now : ℕ) (id loc q : Text) (slots slots' : List Slot)
    → length id < id_len
    → find_node id slots ≡ none
    → take_free (renew now loc (new_slot now id)) slots ≡ some slots'
    → find_node q slots'
      ≡ (if text_eq id q then some (renew now loc (new_slot now id)) else find_node q slots)
unfolding renew new_slot
new_slot_found now id loc q slots slots' h new found =
    let slot = renew now loc (new_slot now id) in
    let same : slot.id ≡ id = cut_all id_len id h in
    let absent : find_node slot.id slots ≡ none = rw same new in
    find_node-take_free q slot slots slots' refl absent found
    ∙ ap (λ t. if text_eq t q then some slot else find_node q slots) same

-- `state_register_node` is an insertion into a dictionary of limited size, for an id that fits its field.
-- It is refused only where the node is not there and every slot is used. Otherwise the slot of the node
-- has the id, the place cut to 63 characters, is active, seen now, not marked as inactive, and its numbers
-- begin at 0; its time of registration, counters, alerts and measures are as they were, or for a new node
-- now, 0 and none; and no other node has changed.
pub register_node_refines :
    (now : ℕ) (id loc : Text) (slots : List Slot)
    → length id < id_len
    → Registers now id loc slots (register_node now id loc slots)
unfolding register_node
register_node_refines now id loc slots h = elim (Option-cases (find_node id slots)) [
  | inr (n, there) ↦
      let (used, same) = found_node id slots n there in
      let slot = renew-registered now id loc n used same in
      rw (there, register_node)
        (
          (λ q.
              find_node-at_node id q (renew now loc) slots (renew-Keeps now loc)
              ∙ ground (arith, there, ap (λ m. some m) slot)),
          length-at_node id (renew now loc) slots,
        )
  | inl new ↦
      let slot = renew now loc (new_slot now id) in
      elim (Option-cases (take_free slot slots)) [
        | inl full ↦ rw (new, register_node, full) (new, take_free_full slot slots full)
        | inr (slots', found) ↦
            rw (new, register_node, found)
              (
                (λ q.
                    new_slot_found now id loc q slots slots' h new found
                    ∙ ap (λ m. if text_eq id q then some m else find_node q slots)
                        (new_slot-registered now id loc h ∙ ap (registered now id loc) (sym new))),
                length-take_free slot slots slots' found,
              )
      ]
]
