-- ===== src/Cards.antt =====
-- docs/video/edicion/tarjetas.py: the cards of code and of tables that the video shows. Draw has the
-- drawing, Fit proves where the lines of a code card stand.
pub mod Draw
pub mod Fit
pub mod Tables
pub mod Sources
mod Tests
