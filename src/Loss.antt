-- ===== src/Loss.antt =====
-- tests/loss_test.py: the test that skips numbers on purpose. Transmit has its loop; Report compares it
-- with what the server counts.
pub mod Transmit
pub mod Report
mod Tests
