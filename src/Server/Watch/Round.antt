-- ===== src/Server/Watch/Round.antt =====
-- server/src/watchdog.c: a round of the watchdog settles every slot, and nothing else in the table.
use telematica_telemetria.Base.{
  All-get_elem?, ℕ, zero, suc, ◌+◌, ◌%◌, ◌^◌, ◌<◌, Bool, true, false, none, some, List, [], ◌∷◌,
  ◌≡◌, ◌≢◌, refl, arith, get_elem?-some, if◌then◌else◌, get_elem?, set, Bool-cases, Option-cases,
  inl, inr, ap, sym, ◌∙◌, get_elem?-set_self, get_elem?-set_ne, get_elem?-lt,
}
use telematica_telemetria.Base.Text.Parts.{text_eq→eq, text_eq_refl}
use telematica_telemetria.Server.Slots.{Slot, is_node, find_node, at_node, max_nodes}
use telematica_telemetria.Server.State.{Server, add_alert, count_alert, inc64}
use telematica_telemetria.Server.Watchdog.{is_silent, retire, watch_slot, watch_from, watch}
use telematica_telemetria.Server.Table.{changed}
use telematica_telemetria.Server.Sane.{IsGood, IsSame, Distinct}
use telematica_telemetria.Server.Invariant.{Inv}
use telematica_telemetria.Server.Watch.{
  not_yet, watch_slot-Inv, watch_from-Inv, silent_count, due-watch_from,
}

-- What a round owes a slot: a silent node is no longer active and has one alert more.
abbrev pub settled : Slot → Slot
settled n = record n { active = false; inactive_alerted = true; alerts = inc64 n.alerts }

abbrev pub settle : ℕ → Slot → Slot
settle now n = if is_silent now n then settled n else n

-- the node of a used slot, or an earlier one of the same id, is found
pub found_there :
    (slots : List Slot) (i : ℕ) (n : Slot)
    → get_elem? slots i ≡ some n
    → n.used ≡ true
    → (m : Slot) × (find_node n.id slots ≡ some m)
unfolding find_node is_node
found_there [] i n e u = cc
found_there (m ∷ slots) zero n e u =
    let same : m ≡ n = cc in
    (
      m,
      ground
          (arith, ap (λ (k : Slot). k.used) same, ap (λ (k : Slot). k.id) same, text_eq_refl n.id),
    )
found_there (m ∷ slots) (suc i) n e u = elim (Bool-cases (is_node n.id m)) [
  | inl hit ↦ (m, ground arith)
  | inr other ↦ let (k, found) = found_there slots i n e u in (k, ground arith)
]

-- The node of a slot is found at that slot, since no other one has its id.
at_node-set :
    (slots : List Slot) (i : ℕ) (n n' : Slot) (f : Slot → Slot)
    → get_elem? slots i ≡ some n
    → n.used ≡ true
    → IsSame n n'
    → Distinct slots
    → at_node n.id f (set slots i n') ≡ set slots i (f n')
unfolding at_node is_node
at_node-set [] i n n' f e u s d = refl
at_node-set (m ∷ slots) zero n n' f e u s d = ground (arith, s, text_eq_refl n.id)
at_node-set (m ∷ slots) (suc i) n n' f e u s d = elim (Bool-cases (is_node n.id m)) [
  | inr other ↦ rw other (ap (λ t. m ∷ t) (at_node-set slots i n n' f e u s d.1))
  | inl hit ↦
      let mu : m.used ≡ true = ground arith in
      let same : m.id ≡ n.id = text_eq→eq m.id n.id (ground arith) in
      let none_found : find_node n.id slots ≡ none = rw (← same) (d.0 mu) in
      let (k, found) = found_there slots i n e u in absurd (ground arith)
]

pub silent_used : (now : ℕ) (n : Slot) → is_silent now n ≡ true → n.used ≡ true
unfolding is_silent
silent_used now n q = ground arith

silent-settle : (now : ℕ) (n : Slot) → is_silent now (settle now n) ≡ false
unfolding is_silent
silent-settle now n = ground arith

silent_count-none :
    (now : ℕ) (slots : List Slot)
    → ((i : ℕ) (n : Slot) → get_elem? slots i ≡ some n → is_silent now n ≡ false)
    → silent_count now slots ≡ 0
silent_count-none now [] h = refl
silent_count-none now (n ∷ slots) h =
    rw (h 0 n refl, silent_count-none now slots (λ i. h (suc i))) refl

module _ (fails : ℕ → Bool) (now : ℕ) where
  retire_slots :
      (i : ℕ) (n : Slot) (s : Server)
      → get_elem? s.slots i ≡ some n
      → is_silent now n ≡ true
      → Inv s
      → (retire fails now i n s).slots ≡ set s.slots i (settled n)
  unfolding retire add_alert at_node
  retire_slots i n s e q h =
      let quiet = record n { active = false; inactive_alerted = true } in
      rw (not_yet now n q (All-get_elem? IsGood s.slots i n e h.table.good)) (
        at_node-set s.slots i n quiet count_alert e (silent_used now n q) (refl, refl)
          h.table.distinct)

  -- what the slot `i` becomes, and that the others stay
  watch_slot_self :
      (i : ℕ) (n : Slot) (s : Server)
      → Inv s
      → get_elem? s.slots i ≡ some n
      → get_elem? (watch_slot fails now i s).slots i ≡ some (settle now n)
  unfolding watch_slot
  watch_slot_self i n s h e = elim (Bool-cases (is_silent now n)) [
    | inl q ↦
        let there = get_elem?-set_self s.slots i (settled n) (get_elem?-lt s.slots i n e) in
        rw (e, watch_slot, q)
          (ap (λ (t : List Slot). get_elem? t i) (retire_slots i n s e q h) ∙ there)
    | inr q ↦ rw (e, watch_slot, q) e
  ]

  watch_slot_other :
      (i j : ℕ) (s : Server)
      → Inv s
      → i ≢ j
      → get_elem? (watch_slot fails now i s).slots j ≡ get_elem? s.slots j
  unfolding watch_slot
  watch_slot_other i j s h ne = elim (Option-cases (get_elem? s.slots i)) [
    | inl e ↦ rw (e, watch_slot) refl
    | inr (n, e) ↦ elim (Bool-cases (is_silent now n)) [
      | inl q ↦
          rw (e, watch_slot, q)
            (ap (λ (t : List Slot). get_elem? t j) (retire_slots i n s e q h)
              ∙ get_elem?-set_ne s.slots i j (settled n) ne)
      | inr q ↦ rw (e, watch_slot, q) refl
    ]
  ]

  watch_from_before :
      (i count j : ℕ) (s : Server)
      → Inv s
      → j < i
      → get_elem? (watch_from fails now i count s).slots j ≡ get_elem? s.slots j
  unfolding watch_from
  watch_from_before i zero j s h lt = refl
  watch_from_before i (suc count) j s h lt =
      watch_from_before (i + 1) count j (watch_slot fails now i s) (watch_slot-Inv fails now i s h)
        (omega arith)
      ∙ watch_slot_other i j s h (λ e. omega (arith, e))

  watch_from_within :
      (i count k : ℕ) (n : Slot) (s : Server)
      → Inv s
      → k < count
      → get_elem? s.slots (i + k) ≡ some n
      → get_elem? (watch_from fails now i count s).slots (i + k) ≡ some (settle now n)
  unfolding watch_from
  watch_from_within i zero k n s h lt e = absurd (omega arith)
  watch_from_within i (suc count) zero n s h lt e =
      let s' = watch_slot fails now i s in
      let here : i + 0 ≡ i = omega arith in
      rw here (
        watch_from_before (i + 1) count i s' (watch_slot-Inv fails now i s h) (omega arith)
        ∙ watch_slot_self i n s h (ap (get_elem? s.slots) (sym here) ∙ e))
  watch_from_within i (suc count) (suc k) n s h lt e =
      let s' = watch_slot fails now i s in
      let here : i + suc k ≡ i + 1 + k = omega arith in
      rw here (
        watch_from_within (i + 1) count k n s' (watch_slot-Inv fails now i s h) (omega arith) (
          watch_slot_other i (i + 1 + k) s h (λ e. omega (arith, e))
          ∙ ap (get_elem? s.slots) (sym here)
          ∙ e))

  -- After a round, every slot is settled: a node that was active and silent for more than fifteen
  -- seconds is not active any more and has one alert more, and every other slot is as it was. The total
  -- of alerts grows, modulo 2 ^ 64, by the number of the nodes that were silent. The state satisfies the
  -- invariant.
  pub watch_refines :
      (s : Server)
      → Inv s
      → ((i : ℕ)
          → get_elem? (watch fails now s).slots i ≡ changed (settle now) (get_elem? s.slots i))
        × (silent_count now (watch fails now s).slots ≡ 0)
        × ((watch fails now s).stats.alerts_total % 2 ^ 64
            ≡ (s.stats.alerts_total + silent_count now s.slots) % 2 ^ 64)
  unfolding watch
  watch_refines s h =
      let s' = watch_from fails now 0 max_nodes s in
      let size' = (watch_from-Inv fails now 0 max_nodes s h).table.size in
      let each : ((i : ℕ) (n : Slot)
          → get_elem? s.slots i ≡ some n
          → get_elem? s'.slots i ≡ some (settle now n)) =
        λ i n e.
          let lt = get_elem?-lt s.slots i n e in
          let at : 0 + i ≡ i = omega arith in
          let settled = watch_from_within 0 max_nodes i n s h (omega (arith, lt, h.table.size)) in
          (simp at at settled) e in
      let quiet : silent_count now s'.slots ≡ 0 = silent_count-none now s'.slots (λ i n e.
        let (m, e') =
          get_elem?-some s.slots i
            (omega (arith, get_elem?-lt s'.slots i n e, size', h.table.size)) in
        let both : some (settle now m) ≡ some n = sym (each i m e') ∙ e in
        let same : settle now m ≡ n = cc in rw (← same) (silent-settle now m)) in
      let all = λ (i : ℕ).
        (elim (Option-cases (get_elem? s.slots i))
          as (λ _. get_elem? s'.slots i ≡ changed (settle now) (get_elem? s.slots i)) [
            | inr (n, e) ↦ each i n e ∙ ap (changed (settle now)) (sym e)
            | inl e ↦ elim (Option-cases (get_elem? s'.slots i)) [
              | inl e' ↦ e' ∙ ap (changed (settle now)) (sym e)
              | inr (n, e') ↦
                  let (m, there) =
                    get_elem?-some s.slots i
                      (omega (arith, get_elem?-lt s'.slots i n e', size', h.table.size)) in
                  absurd (ground arith)
            ]
          ]) in
      (all, quiet, omega (arith, due-watch_from fails now 0 max_nodes s h, quiet))
