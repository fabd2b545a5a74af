-- ===== src/Server/Totals.antt =====
-- server/src: the totals of the server and the counters of its nodes.
pub mod Actions
pub mod Series
use telematica_telemetria.Base.{
  ℕ, zero, suc, ◌+◌, ◌-◌, ◌%◌, ◌^◌, ◌≤◌, ◌<◌, Bool, true, false, not, ◌&&◌, Option, none, some,
  List, [], ◌∷◌, ◌≡◌, ◌≢◌, refl, arith, ltb, leb, if◌then◌else◌, get_elem?, set, Bool-cases,
  Option-cases, inl, inr, ap, sym, ◌∙◌, get_elem?-lt,
}
use telematica_telemetria.Base.Text.{Text, Bytes, codes, show_nat}
use telematica_telemetria.Server.Slots.{
  Slot, is_node, find_node, at_node, take_free, cut, register_node, renew, new_slot,
}
use telematica_telemetria.Server.State.{Server, Stats, count_alert, add_alert, inc64}
use telematica_telemetria.Server.Table.{Keeps, renew-Keeps, take_free_cases}

-- the sum of a counter over the slots that are used
abbrev pub total : (Slot → ℕ) → List Slot → ℕ
total f [] = 0
total f (n ∷ slots) = (if n.used then f n else 0) + total f slots

pub total-at_node :
    (f : Slot → ℕ) (g : Slot → Slot) (id : Text) (n : Slot) (slots : List Slot)
    → Keeps g
    → find_node id slots ≡ some n
    → total f (at_node id g slots) + f n ≡ total f slots + f (g n)
unfolding find_node at_node is_node
total-at_node f g id n [] k e = cc
total-at_node f g id n (m ∷ slots) k e = elim (Bool-cases (is_node id m)) [
  | inl hit ↦
      let same : m ≡ n = ground arith in
      let used : m.used ≡ true = ground arith in
      rw hit (ground (arith, (k m).0, used, ap f same, ap (λ (x : Slot). f (g x)) same))
  | inr other ↦
      let found : find_node id slots ≡ some n = ground arith in
      rw other (omega (arith, total-at_node f g id n slots k found))
]

-- a change that keeps the counter
pub total-at_node_same :
    (f : Slot → ℕ) (g : Slot → Slot) (id : Text) (slots : List Slot)
    → Keeps g
    → ((n : Slot) → f (g n) ≡ f n)
    → total f (at_node id g slots) ≡ total f slots
unfolding at_node
total-at_node_same f g id [] k h = refl
total-at_node_same f g id (n ∷ slots) k h =
    ground (arith, total-at_node_same f g id slots k h, k n, h n)

pub total-set :
    (f : Slot → ℕ) (i : ℕ) (n n' : Slot) (slots : List Slot)
    → get_elem? slots i ≡ some n
    → n'.used ≡ n.used
    → f n' ≡ f n
    → total f (set slots i n') ≡ total f slots
total-set f i n n' [] e u h = refl
total-set f zero n n' (m ∷ slots) e u h =
    let same : m ≡ n = cc in ground (arith, u, h, ap f same, ap (λ (x : Slot). x.used) same)
total-set f (suc i) n n' (m ∷ slots) e u h =
    ap (λ t. (if m.used then f m else 0) + t) (total-set f i n n' slots e u h)

pub total-take_free :
    (f : Slot → ℕ) (new : Slot) (slots slots' : List Slot)
    → f new ≡ 0
    → take_free new slots ≡ some slots'
    → total f slots' ≡ total f slots
unfolding take_free
total-take_free f new [] slots' z e = cc
total-take_free f new (n ∷ slots) slots' z e = elim (take_free_cases new n slots slots' e) [
  | inl (free, same) ↦ rw (← same) (ground arith)
  | inr (used, (rest, found, same)) ↦
      rw (← same) (ground (arith, total-take_free f new slots rest z found))
]

-- The three totals of `SYSTEM_STATUS` are the sums of the counters of the nodes.
abbrev pub received : Slot → ℕ
received n = n.counts.received

abbrev pub lost : Slot → ℕ
lost n = n.counts.lost

abbrev pub alerts : Slot → ℕ
alerts n = n.alerts

pub record Balanced (s : Server) : Type 0 where
  pub all_received : s.stats.udp_received ≡ total received s.slots % 2 ^ 64
  pub all_lost : s.stats.udp_lost ≡ total lost s.slots % 2 ^ 64
  pub all_alerts : s.stats.alerts_total ≡ total alerts s.slots % 2 ^ 64

-- the changes that a counter of a node and its total take together
pub balanced_step :
    (a b before after all : ℕ) (k : ℕ)
    → after + a ≡ before + b
    → b % 2 ^ 64 ≡ (a + k) % 2 ^ 64
    → all ≡ before % 2 ^ 64
    → (all + k) % 2 ^ 64 ≡ after % 2 ^ 64
balanced_step a b before after all k sum one e = omega arith

-- an alert of a node that is there
pub add_alert-Balanced :
    (fails : ℕ → Bool) (now : ℕ) (id type value : Text) (n : Slot) (s : Server)
    → find_node id s.slots ≡ some n
    → Balanced s
    → Balanced (add_alert fails now id type value s)
unfolding add_alert
add_alert-Balanced fails now id type value n s found h =
    let kept = λ (f : Slot → ℕ) (same : (n : Slot) → f (count_alert n) ≡ f n).
      ap (λ t. t % 2 ^ 64)
        (sym (total-at_node_same f count_alert id s.slots (λ n. (refl, refl)) same)) in
    record {
      all_received = h.all_received ∙ kept received (λ n. refl);
      all_lost = h.all_lost ∙ kept lost (λ n. refl);
      all_alerts =
          balanced_step n.alerts (inc64 n.alerts) (total alerts s.slots) _ _ 1
            (total-at_node alerts count_alert id n s.slots (λ n. (refl, refl)) found) (omega arith)
            h.all_alerts;
    }

-- another table with the same sums
abbrev pub SameTotals : List Slot → List Slot → Type 0
SameTotals slots slots' =
    (total received slots' ≡ total received slots)
    × (total lost slots' ≡ total lost slots)
    × (total alerts slots' ≡ total alerts slots)

pub slots-Balanced :
    (slots : List Slot) (s : Server)
    → SameTotals s.slots slots
    → Balanced s
    → Balanced (record s { slots = slots })
slots-Balanced slots s (r, l, a) h = record {
  all_received = h.all_received ∙ ap (λ t. t % 2 ^ 64) (sym r);
  all_lost = h.all_lost ∙ ap (λ t. t % 2 ^ 64) (sym l);
  all_alerts = h.all_alerts ∙ ap (λ t. t % 2 ^ 64) (sym a);
}

total-register_node :
    (now : ℕ) (id loc : Text) (slots slots' : List Slot) (f : Slot → ℕ)
    → ((n : Slot) → f (renew now loc n) ≡ f n)
    → f (new_slot now id) ≡ 0
    → register_node now id loc slots ≡ some slots'
    → total f slots' ≡ total f slots
unfolding register_node
total-register_node now id loc slots slots' f same z e = elim (Option-cases (find_node id slots)) [
  | inr (n, there) ↦
      let new : at_node id (renew now loc) slots ≡ slots' = ground (arith, there) in
      rw (← new) (total-at_node_same f (renew now loc) id slots (renew-Keeps now loc) same)
  | inl absent ↦
      total-take_free f (renew now loc (new_slot now id)) slots slots' (same (new_slot now id) ∙ z)
        (ground (arith, absent))
]

pub register_node-SameTotals :
    (now : ℕ) (id loc : Text) (slots slots' : List Slot)
    → register_node now id loc slots ≡ some slots'
    → SameTotals slots slots'
unfolding renew new_slot
register_node-SameTotals now id loc slots slots' e = (
  total-register_node now id loc slots slots' received (λ n. refl) refl e,
  total-register_node now id loc slots slots' lost (λ n. refl) refl e,
  total-register_node now id loc slots slots' alerts (λ n. refl) refl e,
)

-- a change of the other numbers
pub stats-Balanced :
    (st : Stats) (s : Server)
    → st.udp_received ≡ s.stats.udp_received
    → st.udp_lost ≡ s.stats.udp_lost
    → st.alerts_total ≡ s.stats.alerts_total
    → Balanced s
    → Balanced (record s { stats = st })
stats-Balanced st s r l a h = record {
  all_received = r ∙ h.all_received;
  all_lost = l ∙ h.all_lost;
  all_alerts = a ∙ h.all_alerts;
}
