-- ===== src/Server/Noted.antt =====
-- server/src: what a datagram changes, written out field by field.
use telematica_telemetria.Base.{
  IfSome, ℕ, ◌+◌, ◌-◌, ◌%◌, ◌^◌, ◌<◌, true, false, ◌||◌, Option, none, some, List, [], ◌∷◌, ◌≡◌,
  refl, arith, if◌then◌else◌, if_either, Bool-cases, Option-cases, inl, inr, length, leb, ◌==◌,
  take,
}
use telematica_telemetria.Base.Text.{Text, Bytes}
use telematica_telemetria.Server.Strings.{Doubles, tlp_valid_id}
use telematica_telemetria.Server.Slots.{Slot, set_measure, overwrite, max_vars}
use telematica_telemetria.Server.State.{Stats, count_alert}
use telematica_telemetria.Server.Alerts.{Ring, put_alert}
use telematica_telemetria.Server.Udp.{Telemetry, read_fields, read_telemetry}
use telematica_telemetria.Server.Measures.{find_measure, with_measure}

-- How many numbers are left out between the last one and this one; none behind a REGISTER.
abbrev pub left_out : ℕ → ℕ → ℕ
left_out last seq = if last == 0 then 0 else seq - (last + 1)

-- a counter of 64 bits behind `k` more
abbrev pub grown : ℕ → ℕ → ℕ
grown k n = if k == 0 then n else (n + k) % 2 ^ 64

abbrev pub one_if : Option Text → ℕ
one_if none = 0
one_if (some type) = 1

-- What a datagram leaves of its node, field by field; `raised` is the type of its alert.
pub record Heard (now : ℕ) (t : Telemetry) (raised : Option Text) (n n' : Slot) : Type 0 where
  pub used : n'.used ≡ n.used
  pub id : n'.id ≡ n.id
  pub location : n'.location ≡ n.location
  pub registered_at : n'.registered_at ≡ n.registered_at
  pub active : n'.active ≡ true
  pub last_seen : n'.last_seen ≡ now
  pub inactive_alerted : n'.inactive_alerted ≡ false
  pub last_seq :
      n'.counts.last_seq
      ≡ (if leb t.seq 1 || leb n.counts.last_seq t.seq then t.seq else n.counts.last_seq)
  pub received : n'.counts.received ≡ grown 1 n.counts.received
  pub lost : n'.counts.lost ≡ grown (left_out n.counts.last_seq t.seq) n.counts.lost
  pub alerts : n'.alerts ≡ grown (one_if raised) n.alerts
  pub vars : (q : Text) → find_measure q n'.vars ≡ with_measure now t.var t.value n q

-- The totals behind a datagram of a node whose last number was `last`.
pub record Totalled (t : Telemetry) (raised : Option Text) (last : ℕ) (st st' : Stats)
    : Type 0 where
  pub received : st'.udp_received ≡ grown 1 st.udp_received
  pub lost : st'.udp_lost ≡ grown (left_out last t.seq) st.udp_lost
  pub alerts : st'.alerts_total ≡ grown (one_if raised) st.alerts_total
  pub rejected : st'.udp_rejected ≡ st.udp_rejected
  pub invalid : st'.udp_invalid ≡ st.udp_invalid

abbrev pub ring_after : ℕ → Telemetry → Option Text → Ring → Ring
ring_after now t none r = r
ring_after now t (some type) r =
    put_alert (record { node_id = t.id; type = take 15 type; value = t.value; at = now }) r

-- a measure changes no other field
pub set_measure_rest :
    (now : ℕ) (var value : Text) (n : Slot)
    → set_measure now var value n ≡ record n { vars = (set_measure now var value n).vars }
unfolding set_measure
set_measure_rest now var value n = elim (Option-cases (overwrite now var value n.vars)) [
  | inr (vars, e) ↦ rw (e, set_measure) refl
  | inl e ↦ elim (Bool-cases (leb max_vars (length n.vars))) [
    | inl full ↦ rw (e, set_measure, full) refl
    | inr room ↦ rw (e, set_measure, room) refl
  ]
]

-- a datagram that passes the checks fits the fields of the state
abbrev pub Fits : Telemetry → Type 0
Fits t = (length t.id < 32) × (length t.var < 16) × (length t.value < 32)

abbrev pub alerted : Option Text → Slot → Slot
alerted none n = n
alerted (some type) n = count_alert n

module _ {F : Type 0} (dbl : Doubles F) where
  read_fields-Fits : (fields : List Text) → IfSome Fits (read_fields dbl fields)
  unfolding read_fields tlp_valid_id
  read_fields-Fits (word ∷ id ∷ num ∷ var ∷ value ∷ []) = ground arith
  read_fields-Fits [] = tt
  read_fields-Fits (a ∷ []) = tt
  read_fields-Fits (a ∷ b ∷ []) = tt
  read_fields-Fits (a ∷ b ∷ c ∷ []) = tt
  read_fields-Fits (a ∷ b ∷ c ∷ d ∷ []) = tt
  read_fields-Fits (a ∷ b ∷ c ∷ d ∷ e ∷ f ∷ fields) = tt

  pub read_telemetry-Fits : (bytes : Bytes) → IfSome Fits (read_telemetry dbl bytes)
  unfolding read_telemetry
  read_telemetry-Fits bytes =
      if_either (IfSome Fits) (length bytes == 0 || leb 512 (length bytes)) tt (read_fields-Fits _)
