-- ===== src/Server.antt =====
-- server/src: the server, in C. Sequence, Slots, Alerts and State have the shared state of state.c.
pub mod Sequence
pub mod Slots
pub mod Alerts
pub mod State
pub mod Strings
pub mod Udp
pub mod Reply
pub mod Tcp
pub mod Watchdog
pub mod Client
pub mod Framing
pub mod Recent
pub mod Table
pub mod Steps
pub mod Sane
pub mod Subscribers
pub mod Invariant
pub mod Dispatch
pub mod Commands
pub mod Watch
pub mod Runs
pub mod Totals
pub mod Fields
pub mod Accepts
pub mod Measures
pub mod Limits
pub mod Noted
pub mod Heard
pub mod Welcome
pub mod Buffer
pub mod Replies
pub mod Http
mod Tests
