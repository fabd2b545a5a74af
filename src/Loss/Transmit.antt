-- ===== src/Loss/Transmit.antt =====
-- tests/loss_test.py: the loop of `main` that sends the datagrams, and the counts that it keeps. Every
-- `sendto` succeeds.
use telematica_telemetria.Base.{
  ℕ, zero, suc, ◌+◌, ◌%◌, Bool, not, ◌&&◌, List, [], ◌∷◌, ◌++◌, map, if◌then◌else◌, ◌==◌,
}
use telematica_telemetria.Base.Text.{Text, Bytes, codes}
use telematica_telemetria.Base.Codec.{encode}
use telematica_telemetria.Node.Telemetry.{telemetry_msg}

-- `sent` and `skipped`, and the numbers of the datagrams that left, in order
pub record Tally : Type 0 where
  pub sent : ℕ
  pub skipped : ℕ
  pub numbers : List ℕ

-- `a.drop and seq % a.drop == 0`
unfoldable pub is_dropped : ℕ → ℕ → Bool
is_dropped drop seq = not (drop == 0) && seq % drop == 0

-- the body of the loop
unfoldable pub shoot : ℕ → ℕ → Tally → Tally
unfolding is_dropped
shoot drop seq t =
    if is_dropped drop seq
    then record t { skipped = t.skipped + 1 }
    else record t { sent = t.sent + 1; numbers = t.numbers ++ seq ∷ [] }

-- `count` rounds from the number `seq` on
unfoldable pub shoot_from : ℕ → ℕ → ℕ → Tally → Tally
unfolding shoot
shoot_from drop seq zero t = t
shoot_from drop seq (suc count) t = shoot_from drop (seq + 1) count (shoot drop seq t)

-- `for seq in range(1, a.count + 1)`
unfoldable pub transmit : ℕ → ℕ → Tally
unfolding shoot_from
transmit drop count = shoot_from drop 1 count (record { sent = 0; skipped = 0; numbers = [] })

-- the datagrams on the wire
unfoldable pub datagrams_of : Text → Tally → List Bytes
datagrams_of id t =
    map (λ seq. encode (telemetry_msg id seq (codes "TEMP") (codes "25.0"))) t.numbers
