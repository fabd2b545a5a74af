-- ===== src/MontageV2/Graph.antt =====
-- docs/video/edicion/montaje_v2.py: the filter graph of `render_clip`. The cut, the loop over the overlays
-- and the small picture over the last layer are those of montaje.py, with cards that fade in 0.6 seconds.
use telematica_telemetria.Base.{
  ◌+◌, Option, some, ◌>>=◌, List, [], ◌∷◌, ◌++◌, if◌then◌else◌, length,
}
use telematica_telemetria.Base.Text.{Text, codes}
use telematica_telemetria.Montage.Lines.{esc}
use telematica_telemetria.Montage.Split.{split_once}
use telematica_telemetria.Montage.Graph.{
  Pad, video, named, Chain, Scene, is_full, has_pip, cut_chains, overlay_chains, pip_chains, vpre,
  apre,
}

-- the number and the name of the section, from the title; `none` is the IndexError of a title without
-- the separator
unfoldable pub section : Text → Option (Text × Text)
unfolding split_once
section title = split_once (codes " · ") title

-- `slide`, `alpha_in` and `fade_out`
abbrev pub slide : Text
slide = codes "if(lt(t\\,0.9)\\,40*(1-t/0.9)*(1-t/0.9)\\,0)"

abbrev pub shade : Text
shade = codes "alpha='(if(lt(t\\,0.9)\\,t/0.9\\,1))*(if(gt(t\\,3.6)\\,1-(t-3.6)/0.6\\,1))'"

-- the card of the section: the camera behind a blur, and the texts on it
unfoldable pub blur_chain : Chain
blur_chain = record {
  ins = named (codes "cam2") ∷ [];
  filters =
      codes
        "scale=480:270,gblur=sigma=18,scale=1920:1080,eq=brightness=-0.35:saturation=0.7,format=yuva420p,fade=t=out:st=3.6:d=0.6:alpha=1";
  outs = named (codes "blur") ∷ [];
}

unfoldable pub backdrop_chain : Pad → Chain
backdrop_chain last = record {
  ins = last ∷ named (codes "blur") ∷ [];
  filters = codes "overlay=0:0:enable='between(t,0.0,4.2)'";
  outs = named (codes "vb") ∷ [];
}

unfoldable pub text_chain : Text → Text → Text → Chain
text_chain number name who = record {
  ins = named (codes "vb") ∷ [];
  filters =
      codes "drawtext=fontfile=segoeuil.ttf:text='"
      ++ esc name
      ++ codes "':fontsize=96:fontcolor=white:"
      ++ shade
      ++ codes ":x=(w-text_w)/2:y=(h-text_h)/2-40+"
      ++ slide
      ++ codes ":enable='between(t,0.0,4.2)',drawtext=fontfile=seguisb.ttf:text='"
      ++ esc number
      ++ codes "':fontsize=30:fontcolor=0xE0E0E0@0.85:"
      ++ shade
      ++ codes ":x=(w-text_w)/2:y=(h-text_h)/2-150+"
      ++ slide
      ++ codes ":enable='between(t,0.0,4.2)',"
      ++ codes
          "drawbox=x=(iw-120)/2:y=ih/2+58:w=120:h=2:color=white@0.6:t=fill:enable='between(t,0.6,3.7)',"
      ++ codes "drawtext=fontfile=segoeuisl.ttf:text='"
      ++ esc who
      ++ codes "':fontsize=38:fontcolor=white@0.9:"
      ++ shade
      ++ codes ":x=(w-text_w)/2:y=(h-text_h)/2+90+"
      ++ slide
      ++ codes ":enable='between(t,0.3,4.2)',"
      ++ codes
          "drawtext=fontfile=segoeuisl.ttf:text='Plataforma distribuida de telemetría · Telemática · EAFIT':fontsize=26:fontcolor=white@0.55:"
      ++ shade
      ++ codes ":x=(w-text_w)/2:y=h-90:enable='between(t,0.3,4.2)'";
  outs = named (codes "vt") ∷ [];
}

module _ {F : Type 0} (show : F → Text) (before_end : F → F) where
  -- the small picture of the camera, with the mask from the input behind the overlays
  unfoldable pub camera_chains : Scene F → List Chain
  camera_chains c =
      if has_pip show before_end c
      then record {
        ins = named (codes "cam") ∷ [];
        filters = codes "scale=416:234,format=yuva420p";
        outs = named (codes "pipraw") ∷ [];
      }
        ∷ record {
          ins = video (length c.overlays + 1) ∷ [];
          filters = codes "format=gray,scale=416:234";
          outs = named (codes "pm") ∷ [];
        }
        ∷ record {
          ins = named (codes "pipraw") ∷ named (codes "pm") ∷ [];
          filters = codes "alphamerge";
          outs = named (codes "pip") ∷ [];
        }
        ∷ []
      else record { ins = named (codes "cam") ∷ []; filters = codes "nullsink"; outs = [] } ∷ []

  -- the picture, twice the camera, and the sound
  unfoldable pub start_chains : Scene F → List Chain
  unfolding camera_chains
  start_chains c =
      record {
        ins = vpre show before_end c.cut ∷ [];
        filters = codes "format=yuv420p,split=3";
        outs = named (codes "base") ∷ named (codes "cam") ∷ named (codes "cam2") ∷ [];
      }
      ∷ record {
        ins = apre show before_end c.cut ∷ [];
        filters = codes "anull";
        outs = named (codes "aout") ∷ [];
      }
      ∷ camera_chains c

  -- the section card and the subtitles, over the last layer
  unfoldable pub section_chains : Scene F → Text × Text → Pad → List Chain
  unfolding blur_chain backdrop_chain text_chain
  section_chains c (number, name) last =
      blur_chain
      ∷ backdrop_chain last
      ∷ text_chain number name c.who
      ∷ record {
        ins = named (codes "vt") ∷ [];
        filters = codes "ass='" ++ c.id ++ codes ".ass'";
        outs = named (codes "vout") ∷ [];
      }
      ∷ []

  -- what follows the overlays
  unfoldable pub end_chains : Scene F → Text × Text → Pad → List Chain
  unfolding section_chains
  end_chains c card last =
      (pip_chains show before_end c last).0
      ++ section_chains c card (pip_chains show before_end c last).1

  -- the list `f`
  unfoldable pub graph : Scene F → Option (List Chain)
  unfolding section start_chains end_chains
  graph c =
      let (layers, last) =
        overlay_chains show before_end (codes "0.6") (is_full show before_end c) 1
          (named (codes "base")) c.overlays in
      do
        card ← section c.title
        some (
            (cut_chains show before_end c.cut ++ start_chains c)
            ++ (layers ++ end_chains c card last))
