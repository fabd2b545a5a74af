-- ===== src/Montage/Graph.antt =====
-- docs/video/edicion/montaje.py: the command that `render_clip` builds for ffmpeg. A chain of filters is
-- kept as the pads that it reads, its filters and the pads that it writes, and printed as the source
-- prints it. What f"{t}" prints of a float, the difference b-0.4 (b-0.6 in montaje_v2.py) and
-- os.path.join are parameters; so is the time of a fade, with which montaje_v2.py shares the loop.
use telematica_telemetria.Base.{
  ℕ, ◌+◌, Bool, true, false, not, ◌&&◌, Option, none, some, List, [], ◌∷◌, ◌++◌, map, if◌then◌else◌,
}
use telematica_telemetria.Base.Text.{Text, codes, show_nat, join, text_eq}

-- A pad: a stream of an input, the card of an overlay, a layer of the picture, or another name.
pub data Pad : Type 0 where
  video : ℕ → Pad
  audio : ℕ → Pad
  card : ℕ → Pad
  layer : ℕ → Pad
  named : Text → Pad

unfoldable pub show_pad : Pad → Text
show_pad (video i) = codes "[" ++ show_nat i ++ codes ":v]"
show_pad (audio i) = codes "[" ++ show_nat i ++ codes ":a]"
show_pad (card i) = codes "[ov" ++ show_nat i ++ codes "]"
show_pad (layer i) = codes "[v" ++ show_nat i ++ codes "]"
show_pad (named s) = codes "[" ++ s ++ codes "]"

-- One chain.
pub record Chain : Type 0 where
  pub ins : List Pad
  pub filters : Text
  pub outs : List Pad

unfoldable pub show_pads : List Pad → Text
unfolding show_pad
show_pads [] = []
show_pads (p ∷ pads) = show_pad p ++ show_pads pads

unfoldable pub show_chain : Chain → Text
unfolding show_pads
show_chain c = show_pads c.ins ++ c.filters ++ show_pads c.outs

-- An element of `overlays` behind `remap`.
pub record Overlay (F : Type 0) : Type 0 where
  pub file : Text
  pub from : F
  pub to : F

-- What the command reads of a clip; `cut` counts from the start of the clip.
pub record Scene (F : Type 0) : Type 0 where
  pub id : Text
  pub title : Text
  pub who : Text
  pub cam : Text
  pub start : F
  pub dur : F
  pub cut : Option (F × F)
  pub overlays : List (Overlay F)

abbrev pub is_some : {A : Type 0} → Option A → Bool
is_some none = false
is_some (some a) = true

abbrev pub is_empty : {A : Type 0} → List A → Bool
is_empty [] = true
is_empty (x ∷ xs) = false

module _ {F : Type 0} (show : F → Text) (before_end : F → F) where
  -- `c["cam"] == "full"`, and with overlays
  unfoldable pub is_full : Scene F → Bool
  is_full c = text_eq c.cam (codes "full")

  unfoldable pub has_pip : Scene F → Bool
  unfolding is_full
  has_pip c = is_full c && not (is_empty c.overlays)

  -- the chains that leave the cut out
  unfoldable pub cut_chains : Option (F × F) → List Chain
  cut_chains none = []
  cut_chains (some (ca, cb)) =
      record {
        ins = video 0 ∷ [];
        filters = codes "trim=0:" ++ show ca ++ codes ",setpts=PTS-STARTPTS";
        outs = named (codes "v1c") ∷ [];
      }
      ∷ record {
        ins = video 0 ∷ [];
        filters = codes "trim=" ++ show cb ++ codes ",setpts=PTS-STARTPTS";
        outs = named (codes "v2c") ∷ [];
      }
      ∷ record {
        ins = audio 0 ∷ [];
        filters = codes "atrim=0:" ++ show ca ++ codes ",asetpts=PTS-STARTPTS";
        outs = named (codes "a1c") ∷ [];
      }
      ∷ record {
        ins = audio 0 ∷ [];
        filters = codes "atrim=" ++ show cb ++ codes ",asetpts=PTS-STARTPTS";
        outs = named (codes "a2c") ∷ [];
      }
      ∷ record {
        ins =
            named (codes "v1c")
            ∷ named (codes "a1c")
            ∷ named (codes "v2c")
            ∷ named (codes "a2c")
            ∷ [];
        filters = codes "concat=n=2:v=1:a=1";
        outs = named (codes "vc") ∷ named (codes "ac") ∷ [];
      }
      ∷ []

  abbrev pub vpre : Option (F × F) → Pad
  vpre cut = if is_some cut then named (codes "vc") else video 0

  abbrev pub apre : Option (F × F) → Pad
  apre cut = if is_some cut then named (codes "ac") else audio 0

  -- the picture and the sound, and the small picture of the camera
  unfoldable pub base_chains : Scene F → List Chain
  unfolding has_pip
  base_chains c =
      record {
        ins = vpre c.cut ∷ [];
        filters = codes "format=yuv420p,split=2";
        outs = named (codes "base") ∷ named (codes "cam") ∷ [];
      }
      ∷ record { ins = apre c.cut ∷ []; filters = codes "anull"; outs = named (codes "aout") ∷ [] }
      ∷ (if has_pip c
          then record {
            ins = named (codes "cam") ∷ [];
            filters = codes "scale=384:216,format=yuva420p";
            outs = named (codes "pip") ∷ [];
          }
          else record { ins = named (codes "cam") ∷ []; filters = codes "nullsink"; outs = [] })
      ∷ []

  abbrev pub between : Overlay F → Text
  between o = codes "between(t," ++ show o.from ++ codes "," ++ show o.to ++ codes ")"

  -- a card comes in and goes out in `d` seconds
  abbrev pub fade : Text → Overlay F → Text
  fade d o =
      codes "fade=t=in:st="
      ++ show o.from
      ++ codes ":d="
      ++ d
      ++ codes ":alpha=1,fade=t=out:st="
      ++ show (before_end o.to)
      ++ codes ":d="
      ++ d
      ++ codes ":alpha=1"

  -- the card of the overlay `i`, and the layer with it over the picture so far
  abbrev pub card_chain : Text → Bool → ℕ → Overlay F → Chain
  card_chain d full i o = record {
    ins = video i ∷ [];
    filters =
        (if full then codes "format=yuva420p," else codes "scale=1152:648,format=yuva420p,")
        ++ fade d o;
    outs = card i ∷ [];
  }

  abbrev pub layer_chain : Bool → ℕ → Pad → Overlay F → Chain
  layer_chain full i last o = record {
    ins = last ∷ card i ∷ [];
    filters =
        (if full then codes "overlay=0:0:enable='" else codes "overlay=W-w-40:40:enable='")
        ++ between o
        ++ codes "'";
    outs = layer i ∷ [];
  }

  -- the loop over the overlays, numbered from `i`, with the pad of the picture so far
  unfoldable pub overlay_chains : Text → Bool → ℕ → Pad → List (Overlay F) → List Chain × Pad
  overlay_chains d full i last [] = ([], last)
  overlay_chains d full i last (o ∷ overlays) =
      let (chains, end) = overlay_chains d full (i + 1) (layer i) overlays in
      (card_chain d full i o ∷ layer_chain full i last o ∷ chains, end)

  -- the small picture over the last layer, while an overlay is shown
  unfoldable pub pip_chains : Scene F → Pad → List Chain × Pad
  unfolding has_pip
  pip_chains c last =
      if has_pip c
      then (
        record {
          ins = last ∷ named (codes "pip") ∷ [];
          filters =
              codes "overlay=W-w-32:H-h-32:enable='"
              ++ join b'+' (map between c.overlays)
              ++ codes "'";
          outs = named (codes "vp") ∷ [];
        }
            ∷ [],
        named (codes "vp"),
      )
      else ([], last)
