-- ===== src/MontageV2/Command.antt =====
-- docs/video/edicion/montaje_v2.py: the commands that `render_clip` runs.
use telematica_telemetria.Base.{Option, some, ◌>>=◌, List, [], ◌∷◌, ◌++◌, map, if◌then◌else◌}
use telematica_telemetria.Base.Text.{Text, codes, join}
use telematica_telemetria.Montage.Graph.{Scene, has_pip, show_chain}
use telematica_telemetria.MontageV2.Graph.{graph}

-- the paths of the source
pub record Paths : Type 0 where
  pub path_join : Text → Text → Text
  pub here : Text
  pub norm : Text
  pub assets : Text
  pub work : Text

-- One input of the command: its options, and its file behind `-i`.
pub record Input : Type 0 where
  pub options : List Text
  pub file : Text

unfoldable pub show_inputs : List Input → List Text
show_inputs [] = []
show_inputs (i ∷ inputs) = i.options ++ codes "-i" ∷ i.file ∷ show_inputs inputs

-- a picture that is shown for as long as the clip lasts
abbrev pub still : Text → Text → Input
still dur file = record { options = codes "-loop" ∷ codes "1" ∷ codes "-t" ∷ dur ∷ []; file = file }

-- how a video is written
abbrev pub encoding : List Text
encoding =
    codes "-c:v"
    ∷ codes "libx264"
    ∷ codes "-preset"
    ∷ codes "medium"
    ∷ codes "-crf"
    ∷ codes "19"
    ∷ []

abbrev pub sound : List Text
sound =
    codes "-r"
    ∷ codes "30"
    ∷ codes "-c:a"
    ∷ codes "aac"
    ∷ codes "-b:a"
    ∷ codes "160k"
    ∷ codes "-movflags"
    ∷ codes "+faststart"
    ∷ []

module _ {F : Type 0} (show : F → Text) (before_end : F → F) (p : Paths) where
  -- the list `inputs`, with the mask of the small picture behind the overlays
  unfoldable pub inputs : Scene F → List Input
  inputs c =
      record {
        options = codes "-ss" ∷ show c.start ∷ codes "-t" ∷ show c.dur ∷ [];
        file = p.path_join p.norm (c.id ++ codes ".mp4");
      }
        ∷ map (λ o. still (show c.dur) (p.path_join p.assets o.file)) c.overlays
      ++ (if has_pip show before_end c
          then still (show c.dur) (p.path_join p.here (codes "pip-mask.png")) ∷ []
          else [])

  -- the list `cmd`
  unfoldable pub ffmpeg_command : Scene F → Option (List Text)
  unfolding inputs show_inputs
  ffmpeg_command c = do
    chains ← graph show before_end c
    some (
        (codes "ffmpeg" ∷ codes "-y" ∷ codes "-v" ∷ codes "warning" ∷ [])
        ++ show_inputs (inputs c)
        ++ (codes "-filter_complex"
            ∷ join b';' (map show_chain chains)
            ∷ codes "-map"
            ∷ codes "[vout]"
            ∷ codes "-map"
            ∷ codes "[aout]"
            ∷ [])
        ++ encoding
        ++ (codes "-pix_fmt" ∷ codes "yuv420p" ∷ [])
        ++ sound
        ++ p.path_join p.work (c.id ++ codes ".v2.mp4") ∷ [])
