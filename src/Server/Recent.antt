-- ===== src/Server/Recent.antt =====
-- server/src/state.c: the ring of alerts against the list of the latest ones.
use telematica_telemetria.Base.{
  ℕ, zero, suc, ◌+◌, ◌-◌, ◌%◌, ◌≤◌, ◌<◌, some, List, [], ◌∷◌, ◌++◌, ◌≡◌, ◌≢◌, refl, length-take-le,
  length-take, length-take-le_list, take_all, get_elem?-take, take-take-cons, arith, length, take,
  get_elem?, set, ltb, if◌then◌else◌, length-set, length-replicate, get_elem?-set_self,
  get_elem?-set_ne, sym, ap, ◌∙◌, append_assoc, append-nil, Bool-cases, inl, inr, ltb→lt,
}
use mathlib.Core.List.{reverse, reverse-cons}
use mathlib.Core.Path.{subst}
use telematica_telemetria.Server.Alerts.{
  Alert, Ring, empty_ring, no_alert, put_alert, copy_alerts, snapshot,
}

-- The ring holds the alerts of a list, the latest first.
pub record Holds (r : Ring) (recent : List Alert) : Type 0 where
  pub size : length r.cells ≡ 256
  pub head : r.head < 256
  pub count : r.count ≡ length recent
  pub bound : length recent ≤ 256
  pub cells :
      (k : ℕ)
      → k < length recent
      → get_elem? r.cells ((r.head + 255 - k) % 256) ≡ get_elem? recent k

-- the place of the alert before the one at `k`
earlier_cell :
    (head k : ℕ)
    → head < 256
    → k < 255
    → ((head + 1) % 256 + 255 - suc k) % 256 ≡ (head + 255 - k) % 256
earlier_cell head k h lt = omega arith

put-cells :
    (r : Ring) (recent : List Alert) (a : Alert) (k : ℕ)
    → Holds r recent
    → k < length (take 256 (a ∷ recent))
    → get_elem? (set r.cells r.head a) (((r.head + 1) % 256 + 255 - k) % 256)
      ≡ get_elem? (a ∷ recent) k
put-cells r recent a zero h lt =
    let here : ((r.head + 1) % 256 + 255 - 0) % 256 ≡ r.head = omega (arith, h.head) in
    rw here (get_elem?-set_self r.cells r.head a (omega (arith, h.head, h.size)))
put-cells r recent a (suc k) h lt =
    let small : k < 255 = omega (arith, length-take-le 256 (a ∷ recent)) in
    let other : r.head ≢ (r.head + 255 - k) % 256 = omega (arith, h.head) in
    rw (earlier_cell r.head k h.head small) (
      get_elem?-set_ne r.cells r.head ((r.head + 255 - k) % 256) a other
      ∙ h.cells k (omega (arith, length-take-le_list 256 (a ∷ recent))))

-- An alert is put in front; the ring forgets the one behind 256.
pub put-Holds :
    (a : Alert) (r : Ring) (recent : List Alert)
    → Holds r recent
    → Holds (put_alert a r) (take 256 (a ∷ recent))
unfolding put_alert
put-Holds a r recent h = record {
  size = length-set r.cells r.head a ∙ h.size;
  head = omega arith;
  count = count_lem;
  bound = length-take-le 256 (a ∷ recent);
  cells = λ k lt.
      put-cells r recent a k h lt
      ∙ sym (get_elem?-take 256 k (a ∷ recent) (omega (arith, length-take-le 256 (a ∷ recent))));
}
  where
    count_lem : (if ltb r.count 256 then r.count + 1 else r.count) ≡ suc (length (take 255 recent))
    count_lem = elim (Bool-cases (ltb (length recent) 256)) [
      | inl e ↦
          let all : take 255 recent ≡ recent =
            take_all 255 recent (omega (arith, ltb→lt (length recent) 256 e)) in
          rw (all, h.count, e) (omega arith)
      | inr e ↦
          let full : length recent ≡ 256 = ground (arith, h.bound) in
          let most = length-take 255 recent (omega (arith, full)) in
          rw (h.count, e) (omega (arith, full, most))
    ]

-- the alerts of a list, one behind the other
unfoldable pub put_all : List Alert → Ring → Ring
put_all [] r = r
put_all (a ∷ alerts) r = put_all alerts (put_alert a r)

put_all-Holds :
    (alerts : List Alert) (r : Ring) (recent : List Alert)
    → Holds r (take 256 recent)
    → Holds (put_all alerts r) (take 256 (reverse alerts ++ recent))
unfolding put_all
put_all-Holds [] r recent h = h
put_all-Holds (a ∷ alerts) r recent h =
    let one =
      subst (Holds (put_alert a r)) (take-take-cons 256 a recent)
        (put-Holds a r (take 256 recent) h) in
    let all = put_all-Holds alerts (put_alert a r) (a ∷ recent) one in
    subst (λ t. Holds (put_all alerts (put_alert a r)) (take 256 t))
      (sym (
        ap (λ (t : List Alert). t ++ recent) (reverse-cons a alerts)
        ∙ append_assoc (reverse alerts) (a ∷ []) recent))
      all

pub empty-Holds : Holds empty_ring []
empty-Holds = record {
  size = length-replicate 256 no_alert;
  head = omega arith;
  count = refl;
  bound = omega arith;
  cells = λ k lt. absurd (omega arith);
}

cell_same : (head k : ℕ) → (head + 256 - (k + 0)) % 256 ≡ (head + 256 - k) % 256
cell_same head k = omega arith

cell_next : (head k j : ℕ) → (head + 256 - (k + suc j)) % 256 ≡ (head + 256 - (k + 1 + j)) % 256
cell_next head k j = omega arith

cell_from : (head j : ℕ) → (head + 255 - j) % 256 ≡ (head + 256 - (1 + j)) % 256
cell_from head j = omega arith

-- the copy of what is left of the list behind the alerts that are copied
copy_lem :
    (r : Ring) (k max : ℕ) (rest : List Alert)
    → k + length rest ≤ 257
    → 0 < k
    → ((j : ℕ)
        → j < length rest
        → get_elem? r.cells ((r.head + 256 - (k + j)) % 256) ≡ get_elem? rest j)
    → copy_alerts r k (length rest) max ≡ take max rest
unfolding copy_alerts
copy_lem r k zero [] lt pos h = refl
copy_lem r k (suc max) [] lt pos h = refl
copy_lem r k zero (a ∷ rest) lt pos h = refl
copy_lem r k (suc max) (a ∷ rest) lt pos h =
    let first : get_elem? r.cells ((r.head + 256 - k) % 256) ≡ some a =
      subst (λ i. get_elem? r.cells i ≡ some a) (cell_same r.head k) (h 0 (omega arith)) in
    let later = copy_lem r (k + 1) max rest (omega arith) (omega arith) (λ j lj.
      subst (λ i. get_elem? r.cells i ≡ get_elem? rest j) (cell_next r.head k j)
        (h (suc j) (omega arith))) in
    rw (first, copy_alerts) (ap (λ t. a ∷ t) later)

snapshot_lem :
    (r : Ring) (recent : List Alert) (max : ℕ) → Holds r recent → snapshot max r ≡ take max recent
unfolding snapshot
snapshot_lem r recent max h =
    subst (λ n. copy_alerts r 1 n max ≡ take max recent) (sym h.count)
      (copy_lem r 1 max recent (omega (arith, h.bound)) (omega arith) (λ j lj.
        subst (λ i. get_elem? r.cells i ≡ get_elem? recent j) (cell_from r.head j) (h.cells j lj)))

-- Whatever alerts have been raised since the server started, `state_alerts_snapshot` copies the latest of
-- them, the latest first: as many as are asked for and there are, 256 at most.
pub snapshot_refines :
    (alerts : List Alert) (max : ℕ)
    → snapshot max (put_all alerts empty_ring) ≡ take max (take 256 (reverse alerts))
snapshot_refines alerts max =
    let all =
      subst (λ t. Holds (put_all alerts empty_ring) (take 256 t)) (append-nil (reverse alerts))
        (put_all-Holds alerts empty_ring [] empty-Holds) in
    snapshot_lem (put_all alerts empty_ring) (take 256 (reverse alerts)) max all
