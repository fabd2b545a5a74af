-- ===== src/Loss/Report.antt =====
-- tests/loss_test.py: what the server counts of the datagrams that the test sends.
use mathlib.Core.Path.{subst}
use native.Mathlib.Nat.{suc-mod, mod-eq_of_lt}
use telematica_telemetria.Base.{
  ℕ, zero, suc, ◌+◌, ◌-◌, ◌^◌, ◌%◌, ◌≤◌, ◌<◌, true, false, [], ◌∷◌, ◌++◌, ◌≡◌, refl, arith,
  if◌then◌else◌, ltb, Bool-cases, inl, inr, ◌&&◌, ◌∙◌, ap, ltb→lt,
}
use telematica_telemetria.Server.Sequence.{Seen, fresh, count_seq, count_all, count_all_behind}
use telematica_telemetria.Loss.Transmit.{Tally, is_dropped, shoot, shoot_from, transmit}

-- Behind the number `k`: every number was sent or skipped, and the server knows of all that were
-- skipped, but for one that was skipped last.
pub record Agrees (drop k : ℕ) (t : Tally) (n : Seen) : Type 0 where
  pub all : t.sent + t.skipped ≡ k
  pub received : n.received ≡ t.sent
  pub lost : n.lost + (if ltb 0 k && is_dropped drop k then 1 else 0) ≡ t.skipped
  pub last : n.last_seq ≡ (if ltb 0 k && is_dropped drop k then k - 1 else k)

-- neighbours are not both skipped
dropped_once : (drop k : ℕ) → 2 ≤ drop → is_dropped drop k ≡ true → is_dropped drop (suc k) ≡ false
unfolding is_dropped
dropped_once drop k h e =
    let zero_mod : k % drop ≡ 0 = ground arith in
    let one_mod : suc k % drop ≡ 1 =
      suc-mod k drop ∙ ap (λ m. suc m % drop) zero_mod ∙ mod-eq_of_lt h in
    ground arith

dropped_apart : (drop k : ℕ) → 2 ≤ drop → is_dropped drop (suc k) ≡ true → is_dropped drop k ≡ false
dropped_apart drop k h e = elim (Bool-cases (is_dropped drop k)) [
  | inl before ↦ let clash = dropped_once drop k h before in absurd (cc)
  | inr apart ↦ apart
]

-- a number that is skipped is at least `drop`
dropped_late : (drop k : ℕ) → 0 < k → is_dropped drop k ≡ true → drop ≤ k
unfolding is_dropped
dropped_late drop k h e = elim (Bool-cases (ltb k drop)) [
  | inl small ↦
      let same : k % drop ≡ k = mod-eq_of_lt (ltb→lt k drop small) in absurd (ground arith)
  | inr large ↦ ground arith
]

module _ (drop k : ℕ) (t : Tally) (n : Seen) (h : 2 ≤ drop) (a : Agrees drop k t n) where
  skipped-Agrees :
      is_dropped drop (suc k) ≡ true → Agrees drop (suc k) (record t { skipped = t.skipped + 1 }) n
  skipped-Agrees e =
      let before : is_dropped drop k ≡ false = dropped_apart drop k h e in
      record {
        all = omega (arith, a.all);
        received = a.received;
        lost = ground (arith, a.lost);
        last = ground (arith, a.last);
      }

  sent-Agrees :
      k < 2 ^ 63
      → is_dropped drop (suc k) ≡ false
      → Agrees drop
          (suc k)
          (record t { sent = t.sent + 1; numbers = t.numbers ++ suc k ∷ [] })
          (count_seq (suc k) n)
  unfolding count_seq
  sent-Agrees lt e = record {
    all = omega (arith, a.all);
    received = ground (arith, a.received, a.all);
    lost = ground (arith, a.lost, a.last, a.all, dropped_late drop k);
    last = ground (arith, a.last, a.all, dropped_late drop k);
  }

shoot-Agrees :
    (drop k : ℕ) (t : Tally)
    → 2 ≤ drop
    → k < 2 ^ 63
    → Agrees drop k t (count_all t.numbers fresh)
    → Agrees drop (suc k) (shoot drop (suc k) t) (count_all (shoot drop (suc k) t).numbers fresh)
unfolding shoot count_all
shoot-Agrees drop k t h lt a = elim (Bool-cases (is_dropped drop (suc k))) [
  | inl e ↦ rw (shoot, e) (skipped-Agrees drop k t (count_all t.numbers fresh) h a e)
  | inr e ↦
      rw (shoot, e, count_all_behind t.numbers (suc k) fresh)
        (sent-Agrees drop k t (count_all t.numbers fresh) h a lt e)
]

-- it agrees with a new node that hears the numbers sent
abbrev Heard : ℕ → ℕ → Tally → Type 0
Heard drop k t = Agrees drop k t (count_all t.numbers fresh)

shoot_from-Heard :
    (drop k seq count : ℕ) (t : Tally)
    → 2 ≤ drop
    → suc k ≡ seq
    → k + count < 2 ^ 63
    → Heard drop k t
    → Heard drop (k + count) (shoot_from drop seq count t)
unfolding shoot_from
shoot_from-Heard drop k seq zero t h e lt a = subst (λ total. Heard drop total t) (omega arith) a
shoot_from-Heard drop k seq (suc count) t h e lt a =
    let t' = shoot drop seq t in
    let step = shoot-Agrees drop k t h (omega arith) a in
    let heard = subst (λ s. Heard drop (suc k) (shoot drop s t)) e step in
    let rest =
      shoot_from-Heard drop (suc k) (seq + 1) count t' h (omega arith) (omega arith) heard in
    subst (λ total. Heard drop total (shoot_from drop (seq + 1) count t')) (omega arith) rest

-- If every datagram of the test, of fewer than 2⁶³ numbers, arrives in order, the test skips one number in `drop`, 2 at least, and
-- the server first hears of the node then, the server has received what was sent, sent and skipped are
-- all the numbers, and the server counts as lost every number that was skipped, but for the last of all
-- where that one is skipped.
pub transmit-Agrees :
    (drop count : ℕ)
    → 2 ≤ drop
    → count < 2 ^ 63
    → Agrees drop count (transmit drop count) (count_all (transmit drop count).numbers fresh)
unfolding transmit count_all
transmit-Agrees drop count h lt =
    let none_yet : Tally = record { sent = 0; skipped = 0; numbers = [] } in
    let start : Heard drop 0 none_yet = record {
      all = omega arith;
      received = refl;
      lost = omega arith;
      last = refl;
    } in
    subst (λ total. Heard drop total (transmit drop count)) (omega arith)
      (shoot_from-Heard drop 0 1 count none_yet h (omega arith) (omega arith) start)
