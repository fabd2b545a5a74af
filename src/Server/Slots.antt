-- ===== src/Server/Slots.antt =====
-- server/src/state.c: the table of nodes. A pointer to a slot is the id by which `state_find_node` found
-- it, and the clock is an argument.
use telematica_telemetria.Base.{
  ℕ, ◌+◌, ◌-◌, Bool, true, false, ◌&&◌, Option, none, some, List, [], ◌∷◌, length, take, leb, ◌++◌,
  if◌then◌else◌, replicate,
}
use telematica_telemetria.Base.Text.{Text, text_eq}
use telematica_telemetria.Server.Sequence.{Seen, fresh}

abbrev pub max_nodes : ℕ
max_nodes = 64

abbrev pub max_vars : ℕ
max_vars = 8

abbrev pub id_len : ℕ
id_len = 32

abbrev pub loc_len : ℕ
loc_len = 64

abbrev pub var_len : ℕ
var_len = 16

abbrev pub val_len : ℕ
val_len = 32

-- `snprintf(field, n, "%s", s)` into a field of `n` bytes
abbrev pub cut : ℕ → Text → Text
cut n s = take (n - 1) s

-- `measure_t`
pub record Measure : Type 0 where
  pub name : Text
  pub value : Text
  pub at : ℕ

-- `node_t`; `counts` holds received, lost and last_seq, and nvars is the length of `vars`
pub record Slot : Type 0 where
  pub used : Bool
  pub id : Text
  pub location : Text
  pub active : Bool
  pub registered_at : ℕ
  pub last_seen : ℕ
  pub counts : Seen
  pub alerts : ℕ
  pub inactive_alerted : Bool
  pub vars : List Measure

-- a slot of zeros
abbrev pub empty_slot : Slot
empty_slot = record {
  used = false;
  id = [];
  location = [];
  active = false;
  registered_at = 0;
  last_seen = 0;
  counts = fresh;
  alerts = 0;
  inactive_alerted = false;
  vars = [];
}

-- `g_nodes` behind `state_init`
abbrev pub no_nodes : List Slot
no_nodes = replicate max_nodes empty_slot

-- the test of `state_find_node`
unfoldable pub is_node : Text → Slot → Bool
is_node id n = n.used && text_eq n.id id

-- `state_find_node`
unfoldable pub find_node : Text → List Slot → Option Slot
unfolding is_node
find_node id [] = none
find_node id (n ∷ slots) = if is_node id n then some n else find_node id slots

-- a change through the pointer that `state_find_node` returns
unfoldable pub at_node : Text → (Slot → Slot) → List Slot → List Slot
unfolding is_node
at_node id f [] = []
at_node id f (n ∷ slots) = if is_node id n then f n ∷ slots else n ∷ at_node id f slots

-- the first slot that is not used
unfoldable pub take_free : Slot → List Slot → Option (List Slot)
take_free new [] = none
take_free new (n ∷ slots) =
    let later = take_free new slots in
    if n.used then elim later [ none ↦ none | some rest ↦ some (n ∷ rest) ] else some (new ∷ slots)

-- what `state_register_node` writes into a new slot, and then into any
unfoldable pub new_slot : ℕ → Text → Slot
new_slot now id = record empty_slot { used = true; id = cut id_len id; registered_at = now }

unfoldable pub renew : ℕ → Text → Slot → Slot
renew now loc n = record n {
  location = cut loc_len loc;
  active = true;
  last_seen = now;
  counts = record n.counts { last_seq = 0 };
  inactive_alerted = false;
}

-- `state_register_node`; `none` is NULL
unfoldable pub register_node : ℕ → Text → Text → List Slot → Option (List Slot)
unfolding new_slot renew
register_node now id loc slots = elim (find_node id slots) [
  | some _ ↦ some (at_node id (renew now loc) slots)
  | none ↦ take_free (renew now loc (new_slot now id)) slots
]

-- `state_count_nodes`: the used and the active ones
unfoldable pub count_nodes : List Slot → ℕ × ℕ
count_nodes [] = (0, 0)
count_nodes (n ∷ slots) =
    let (total, active) = count_nodes slots in
    if n.used then (total + 1, if n.active then active + 1 else active) else (total, active)

-- the loop of `state_set_measure`, which overwrites a variable that is there
unfoldable pub overwrite : ℕ → Text → Text → List Measure → Option (List Measure)
overwrite now var value [] = none
overwrite now var value (m ∷ vars) =
    let later = overwrite now var value vars in
    if text_eq m.name var
    then some (record m { value = cut val_len value; at = now } ∷ vars)
    else elim later [ none ↦ none | some rest ↦ some (m ∷ rest) ]

-- `state_set_measure`; a ninth variable is ignored
unfoldable pub set_measure : ℕ → Text → Text → Slot → Slot
unfolding overwrite
set_measure now var value n = elim (overwrite now var value n.vars) [
  | some vars ↦ record n { vars = vars }
  | none ↦ if leb max_vars (length n.vars) then n else record n {
    vars = n.vars ++ record { name = cut var_len var; value = cut val_len value; at = now } ∷ [];
  }
]
