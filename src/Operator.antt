-- ===== src/Operator.antt =====
-- operator_client/operator_client.py: the operator's client. The definitions are in State, Receive,
-- Send, Pretty and Interactive; the other children prove.
pub mod State
pub mod Receive
pub mod Send
pub mod Pretty
pub mod Interactive
pub mod Lines
pub mod Framing
pub mod Collect
pub mod Reply
pub mod Rounds
pub mod Display
pub mod Prefix
mod Tests
