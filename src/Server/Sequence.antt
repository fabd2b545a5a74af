-- ===== src/Server/Sequence.antt =====
-- server/src/protocol.c: how `tlp_handle_udp` counts the datagrams of a registered node that pass its
-- checks. A sequence number is a `long` that is not negative, and the counters are 64 bits wide.
use telematica_telemetria.Base.{
  ℕ, ◌+◌, ◌-◌, ◌^◌, ◌%◌, ◌&&◌, ◌||◌, List, [], ◌∷◌, ◌++◌, ◌≡◌, refl, if◌then◌else◌, leb, ltb,
}

-- The fields of `node_t` that count.
pub record Seen : Type 0 where
  pub last_seq : ℕ
  pub received : ℕ
  pub lost : ℕ

-- what `state_register_node` gives a new node
abbrev pub fresh : Seen
fresh = record { last_seq = 0; received = 0; lost = 0 }

-- The count of one datagram. `last_seq + 1` is a sum of a `long`: behind the number 2^63 - 1 it overflows, which C
-- leaves undefined, and which this takes for the sum of the naturals.
unfoldable pub count_seq : ℕ → Seen → Seen
count_seq seq n =
    let gap = seq - n.last_seq - 1 in
    record {
      last_seq = if ltb n.last_seq seq || leb seq 1 then seq else n.last_seq;
      received = (n.received + 1) % 2 ^ 64;
      lost =
          if ltb (n.last_seq + 1) seq && ltb 0 n.last_seq then (n.lost + gap) % 2 ^ 64 else n.lost;
    }

-- the count of datagrams that arrive one behind the other
unfoldable pub count_all : List ℕ → Seen → Seen
unfolding count_seq
count_all [] n = n
count_all (seq ∷ seqs) n = count_all seqs (count_seq seq n)

pub count_all_behind :
    (seqs : List ℕ) (seq : ℕ) (n : Seen)
    → count_all (seqs ++ seq ∷ []) n ≡ count_seq seq (count_all seqs n)
unfolding count_all
count_all_behind [] seq n = refl
count_all_behind (s ∷ seqs) seq n = count_all_behind seqs seq (count_seq s n)
