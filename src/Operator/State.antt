-- ===== src/Operator/State.antt =====
-- operator_client/operator_client.py: the attributes of `Operator` and its connection. The attributes
-- `server` and `ip` only reach the first messages, and the lock is modelled by taking each locked
-- block as one step.
use telematica_telemetria.Base.{ℕ, Bool, false, List, [], ◌∷◌, ◌++◌}
use telematica_telemetria.Base.Text.{Text, Bytes}

-- What `recv` meets: bytes (at least one), a time out, or the end of the stream.
pub data Packet : Type 0 where
  chunk : ℕ → Bytes → Packet
  timeout : Packet
  closed : Packet

-- An exception: socket.timeout and ConnectionError are kinds of OSError.
pub data Failure : Type 0 where
  timed_out connection_error broken_pipe index_error value_error eof_error : Failure

-- A call returns, raises, or has not ended yet.
pub data Outcome {ℓ} (A : Type ℓ) : Type ℓ where
  got : A → Outcome A
  raised : Failure → Outcome A
  unfinished : Outcome A

-- `buf` and `subscribed` are the client's, `inbox` is what the network will deliver, `outbox` and
-- `alerts` are the commands sent and the alerts printed by `send` and by the listener, in order.
pub record Operator : Type 0 where
  pub buf : Bytes
  pub subscribed : Bool
  pub inbox : List Packet
  pub outbox : List Bytes
  pub alerts : List Text

-- `Operator.__init__`, once the connection stands.
abbrev pub connected : List Packet → Operator
connected inbox = record { buf = []; subscribed = false; inbox = inbox; outbox = []; alerts = [] }

-- All the bytes that packets deliver.
abbrev pub delivered : List Packet → Bytes
delivered [] = []
delivered (chunk b s ∷ rest) = (b ∷ s) ++ delivered rest
delivered (timeout ∷ rest) = delivered rest
delivered (closed ∷ rest) = []
