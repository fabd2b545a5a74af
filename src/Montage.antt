-- ===== src/Montage.antt =====
-- docs/video/edicion/montaje.py: the subtitles of the edited video. The definitions are in Cues, Lines
-- and Stamp; the other children prove.
pub mod Cues
pub mod Lines
pub mod Stamp
pub mod Srt
pub mod Ass
pub mod Timeline
pub mod Graph
pub mod Command
pub mod Pads
pub mod Overlap
pub mod Order
pub mod StampTrip
pub mod TimesTrip
pub mod Wiring
pub mod Words
pub mod Split
pub mod Main
pub mod Clips
pub mod Entries
mod Tests
