-- ===== src/MontageV2.antt =====
-- docs/video/edicion/montaje_v2.py: the second version of the video tool, as far as it is not the text of
-- montaje.py. Ass has its subtitles, Graph and Command the filter graph and the commands of `render_clip`,
-- Main the files of `main`; the other children prove.
pub mod Ass
pub mod Graph
pub mod Command
pub mod Shown
pub mod Main
pub mod Wiring
mod Tests
