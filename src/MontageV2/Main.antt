-- ===== src/MontageV2/Main.antt =====
-- docs/video/edicion/montaje_v2.py: the commands of `render_clip` and `main`, and the files that `main`
-- writes. What an entry of `CLIPS` is, and the loops of `main`, are those of montaje.py.
use telematica_telemetria.Base.{ℕ, Option, some, ◌>>=◌, List, ◌∷◌, ◌++◌}
use telematica_telemetria.Base.Text.{Text, codes}
use telematica_telemetria.Montage.Cues.{Grouping}
use telematica_telemetria.Montage.Clips.{Part, Entry, selected, parts_of}
use telematica_telemetria.Montage.Main.{Argv, Output, with_speed, edit}
use telematica_telemetria.MontageV2.Ass.{write_srt}
use telematica_telemetria.MontageV2.Command.{Paths, ffmpeg_command}

module _ (show : ℕ → Text) (before_end : ℕ → ℕ) (p : Paths) where
  -- `render_clip`: the commands and the file; `none` is the IndexError of a title without its separator
  unfoldable pub render_clip : Part → Option (List Argv × Text)
  unfolding with_speed
  render_clip part = do
    command ← ffmpeg_command show before_end p part.scene
    let (more, out) = with_speed part.speed (p.path_join p.work (part.scene.id ++ codes ".v2.mp4"))
    some (command ∷ more, out)

  -- `main`, with the folder of the results; `srts` is the text of the .srt file of a name. `none` is an
  -- error that ends it.
  unfoldable pub main : Grouping → (Text → Text) → Text → Text → List Entry → Option Output
  unfolding selected parts_of render_clip edit
  main g srts export solo entries = do
    parts ← parts_of g srts (selected solo entries)
    edit p.path_join p.work export render_clip (λ cues. write_srt 1000 cues 0)
        (codes "sustentacion-telemetria-v2") solo parts
