-- ===== src/Montage/Command.antt =====
-- docs/video/edicion/montaje.py: the rest of the filter graph of `render_clip`, and the command line.
use telematica_telemetria.Base.{List, [], ◌∷◌, ◌++◌, map}
use telematica_telemetria.Base.Text.{Text, codes, join}
use telematica_telemetria.Montage.Lines.{esc}
use telematica_telemetria.Montage.Graph.{
  Pad, named, Chain, show_chain, Overlay, Scene, is_full, cut_chains, base_chains, overlay_chains,
  pip_chains,
}

-- the paths of the source
pub record Paths : Type 0 where
  pub path_join : Text → Text → Text
  pub norm : Text
  pub assets : Text
  pub work : Text

abbrev pub font : Text
font = codes "segoeui.ttf"

abbrev pub fontb : Text
fontb = codes "segoeuib.ttf"

module _ {F : Type 0} (show : F → Text) (before_end : F → F) where
  -- the title card
  unfoldable pub title_chain : Scene F → Pad → Chain
  title_chain c last = record {
    ins = last ∷ [];
    filters =
        codes "drawbox=x=0:y=820:w=iw:h=260:color=black@0.72:t=fill:enable='between(t,0.3,5.3)',"
        ++ codes "drawtext=fontfile="
        ++ fontb
        ++ codes ":text='"
        ++ esc c.title
        ++ codes "':fontsize=64:fontcolor=white:x=120:y=865:enable='between(t,0.3,5.3)',"
        ++ codes "drawtext=fontfile="
        ++ font
        ++ codes ":text='"
        ++ esc c.who
        ++ codes "':fontsize=40:fontcolor=0xCFCFCF:x=120:y=955:enable='between(t,0.3,5.3)',"
        ++ codes "drawtext=fontfile="
        ++ font
        ++ codes
            ":text='Plataforma distribuida de telemetría · Telemática · EAFIT':fontsize=30:fontcolor=0x9A9A9A:x=120:y=1010:enable='between(t,0.3,5.3)'";
    outs = named (codes "vt") ∷ [];
  }

  -- the subtitles, from the file that `write_ass` wrote
  unfoldable pub subtitle_chain : Scene F → Chain
  subtitle_chain c = record {
    ins = named (codes "vt") ∷ [];
    filters = codes "ass='" ++ c.id ++ codes ".ass'";
    outs = named (codes "vout") ∷ [];
  }

  -- what follows the overlays
  unfoldable pub end_chains : Scene F → List Chain × Pad → List Chain
  end_chains c (layers, last) =
      layers
      ++ (pip_chains show before_end c last).0
      ++ title_chain c (pip_chains show before_end c last).1 ∷ subtitle_chain c ∷ []

  -- the list `f`
  unfoldable pub graph : Scene F → List Chain
  graph c =
      cut_chains show before_end c.cut
      ++ base_chains show before_end c
      ++ end_chains c (
          overlay_chains show before_end (codes "0.4") (is_full show before_end c) 1
            (named (codes "base")) c.overlays)

  unfoldable pub filter_complex : Scene F → Text
  unfolding graph show_chain
  filter_complex c = join b';' (map show_chain (graph c))

  module _ (p : Paths) where
    unfoldable pub overlay_inputs : Text → List (Overlay F) → List Text
    overlay_inputs dur [] = []
    overlay_inputs dur (o ∷ overlays) =
        codes "-loop"
        ∷ codes "1"
        ∷ codes "-t"
        ∷ dur
        ∷ codes "-i"
        ∷ p.path_join p.assets o.file
        ∷ overlay_inputs dur overlays

    -- the list `inputs`
    unfoldable pub inputs : Scene F → List Text
    unfolding overlay_inputs
    inputs c =
        codes "-ss"
        ∷ show c.start
        ∷ codes "-t"
        ∷ show c.dur
        ∷ codes "-i"
        ∷ p.path_join p.norm (c.id ++ codes ".mp4")
        ∷ overlay_inputs (show c.dur) c.overlays

    -- the list `cmd`
    unfoldable pub ffmpeg_command : Scene F → List Text
    unfolding inputs filter_complex
    ffmpeg_command c =
        (codes "ffmpeg" ∷ codes "-y" ∷ codes "-v" ∷ codes "warning" ∷ [])
        ++ inputs c
        ++ codes "-filter_complex"
          ∷ filter_complex c
          ∷ codes "-map"
          ∷ codes "[vout]"
          ∷ codes "-map"
          ∷ codes "[aout]"
          ∷ codes "-c:v"
          ∷ codes "libx264"
          ∷ codes "-preset"
          ∷ codes "medium"
          ∷ codes "-crf"
          ∷ codes "19"
          ∷ codes "-pix_fmt"
          ∷ codes "yuv420p"
          ∷ codes "-r"
          ∷ codes "30"
          ∷ codes "-c:a"
          ∷ codes "aac"
          ∷ codes "-b:a"
          ∷ codes "160k"
          ∷ codes "-movflags"
          ∷ codes "+faststart"
          ∷ p.path_join p.work (c.id ++ codes ".mp4")
          ∷ []
