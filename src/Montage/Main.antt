-- ===== src/Montage/Main.antt =====
-- docs/video/edicion/montaje.py: the commands of `render_clip` and `main`, and the files that `main` writes.
-- Every command is taken to succeed, as `check=True` asks for.
use telematica_telemetria.Base.{
  ℕ, zero, suc, ◌&&◌, Bool, true, false, Option, none, some, ◌>>=◌, List, [], ◌∷◌, ◌++◌, map,
  if◌then◌else◌, ◌==◌,
}
use telematica_telemetria.Base.Text.{Text, codes, is_digit}
use telematica_telemetria.Montage.Cues.{Cue, Grouping}
use telematica_telemetria.Montage.Timeline.{all_cues}
use telematica_telemetria.Montage.Srt.{write_srt}
use telematica_telemetria.Montage.Graph.{is_empty}
use telematica_telemetria.Montage.Clips.{Part, Entry, selected, parts_of}
use telematica_telemetria.Montage.Command
use telematica_telemetria.Montage.Command.{ffmpeg_command}
use telematica_telemetria.Montage.Split.{replace}

abbrev pub Argv : Type 0
Argv = List Text

-- the command that changes the speed of `out`, whose result is `fast`
unfoldable pub fast_command : Text → Text → Text → Argv
fast_command speed out fast =
    codes "ffmpeg"
    ∷ codes "-y"
    ∷ codes "-v"
    ∷ codes "warning"
    ∷ codes "-i"
    ∷ out
    ∷ codes "-filter_complex"
    ∷ (codes "[0:v]setpts=PTS/" ++ speed ++ codes "[v];[0:a]atempo=" ++ speed ++ codes "[a]")
    ∷ codes "-map"
    ∷ codes "[v]"
    ∷ codes "-map"
    ∷ codes "[a]"
    ∷ codes "-c:v"
    ∷ codes "libx264"
    ∷ codes "-preset"
    ∷ codes "medium"
    ∷ codes "-crf"
    ∷ codes "19"
    ∷ codes "-r"
    ∷ codes "30"
    ∷ codes "-c:a"
    ∷ codes "aac"
    ∷ codes "-b:a"
    ∷ codes "160k"
    ∷ codes "-movflags"
    ∷ codes "+faststart"
    ∷ fast
    ∷ []

-- the command that joins the clips
unfoldable pub join_command : Text → Text → Argv
join_command list final =
    codes "ffmpeg"
    ∷ codes "-y"
    ∷ codes "-v"
    ∷ codes "error"
    ∷ codes "-f"
    ∷ codes "concat"
    ∷ codes "-safe"
    ∷ codes "0"
    ∷ codes "-i"
    ∷ list
    ∷ codes "-c"
    ∷ codes "copy"
    ∷ codes "-movflags"
    ∷ codes "+faststart"
    ∷ final
    ∷ []

-- the commands behind the first, and the file of the clip
unfoldable pub with_speed : Option Text → Text → List Argv × Text
unfolding fast_command
with_speed none out = ([], out)
with_speed (some speed) out =
    let fast = replace (codes ".mp4") (codes ".fast.mp4") out in
    (fast_command speed out fast ∷ [], fast)

-- `"".join(f"file '{p.replace(chr(92), '/')}'\n" for p in parts)`
unfoldable pub concat_list : List Text → Text
concat_list [] = []
concat_list (p ∷ parts) =
    codes "file '" ++ replace (codes "\\") (codes "/") p ++ b'\'' ∷ b'\n' ∷ concat_list parts

-- whether a text begins like a pattern, with `d` for a digit
unfoldable pub matches : Text → Text → Bool
matches [] s = true
matches (p ∷ pattern) [] = false
matches (p ∷ pattern) (c ∷ s) = (if p == b'd' then is_digit c else p == c) && matches pattern s

-- `re.sub(r"(\d\d:\d\d:\d\d),(\d\d\d)", r"\1.\2", s)`: the comma is the ninth character. `skip` more
-- characters of a match are kept, the comma, the last but `dot`, as a dot.
unfoldable pub dotted : ℕ → Text → Text
unfolding matches
dotted skip [] = []
dotted (suc skip) (c ∷ s) = (if skip == 3 then b'.' else c) ∷ dotted skip s
dotted zero (c ∷ s) =
    let found = dotted 11 s in
    let onward = dotted zero s in
    if matches (codes "dd:dd:dd,ddd") (c ∷ s) then c ∷ found else c ∷ onward

-- the text of the .vtt file
unfoldable pub to_vtt : Text → Text
unfolding dotted
to_vtt srt = codes "WEBVTT\n\n" ++ dotted zero srt

-- What `main` leaves: the commands in their order, and the texts of the files it writes, each with its
-- path. With `--solo` there are no files.
pub record Output : Type 0 where
  pub commands : List Argv
  pub files : List (Text × Text)

module _ (path_join : Text → Text → Text) (work export : Text) where
  -- the loop over the clips, with what `render_clip` runs and returns for one
  unfoldable pub render_all :
      (Part → Option (List Argv × Text)) → List (Part) → Option (List Argv × List Text)
  render_all render [] = some ([], [])
  render_all render (part ∷ parts) = do
    (commands, out) ← render part
    (later, outs) ← render_all render parts
    some (commands ++ later, out ∷ outs)

  -- `main` on the clips that are not left out, whose files have a common name
  unfoldable pub edit :
      (Part → Option (List Argv × Text))
      → (List Cue → Text)
      → Text
      → Text
      → List (Part)
      → Option Output
  unfolding render_all join_command concat_list to_vtt
  edit render srt name solo parts = do
    (commands, outs) ← render_all render parts
    let list = path_join work (codes "concat.txt")
    let final = path_join export (name ++ codes "-1080p.mp4")
    let subtitles = path_join export (name ++ codes ".es-CO.srt")
    let text = srt (all_cues 0 (map (λ part. part.clip) parts))
    some (
        if is_empty solo
        then record {
          commands = commands ++ join_command list final ∷ [];
          files =
              (list, concat_list outs)
              ∷ (subtitles, text)
              ∷ (path_join export (name ++ codes ".es-CO.vtt"), to_vtt text)
              ∷ [];
        }
        else record { commands = commands; files = [] })

module _ (show : ℕ → Text) (before_end : ℕ → ℕ) (p : Command.Paths) where
  -- `render_clip`: the commands and the file
  unfoldable pub render_clip : Part → Option (List Argv × Text)
  unfolding with_speed
  render_clip part =
      let (more, out) =
        with_speed part.speed (p.path_join p.work (part.scene.id ++ codes ".mp4")) in
      some (ffmpeg_command show before_end p part.scene ∷ more, out)

  -- `main`, with the folder of the results; `srts` is the text of the .srt file of a name. `none` is the
  -- TypeError of a time line that does not match.
  unfoldable pub main : Grouping → (Text → Text) → Text → Text → List Entry → Option Output
  unfolding selected parts_of render_clip edit
  main g srts export solo entries = do
    parts ← parts_of g srts (selected solo entries)
    edit p.path_join p.work export render_clip (λ cues. write_srt 1000 cues 0)
        (codes "sustentacion-telemetria") solo parts
