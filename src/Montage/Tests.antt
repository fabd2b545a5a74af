-- ===== src/Montage/Tests.antt =====
-- docs/video/edicion/montaje.py: concrete cues and times.
use telematica_telemetria.Montage.Graph.{Scene, Overlay, named}
use telematica_telemetria.Montage.Command.{graph}
use telematica_telemetria.Montage.Pads.{wire_up}
use telematica_telemetria.Montage.Wiring.{graph_wired}
use telematica_telemetria.Base.{
  Bool, true, All, ◌⊎◌, ◌≤◌, ltb, map, ℕ, ◌-◌, leb, ◌&&◌, List, [], ◌∷◌, ◌++◌, ◌≡◌, refl, arith,
  some, length, ◌*◌, ◌/◌, ◌<◌,
}
use telematica_telemetria.Base.Text.{
  more_digits, Text, join, codes, show_nat, strip, split, is_space,
}
use telematica_telemetria.Montage.Cues.{Cue, Grouping, regroup}
use telematica_telemetria.Montage.Stamp.{stamp, read_stamp, two_digits, expect}
use telematica_telemetria.Montage.Lines.{two_lines}
use telematica_telemetria.Montage.Words.{IsWord, IsFull, two_lines_lem}
use telematica_telemetria.Montage.Clips.{Entry, scene_of}
use telematica_telemetria.Montage.Entries.{clips}
use telematica_telemetria.Montage.Split.{replace}
use telematica_telemetria.Montage.Main.{to_vtt, with_speed, concat_list}
use telematica_telemetria.Montage.Overlap.{InOrder, regroup-InOrder}
use telematica_telemetria.Montage.Timeline.{Clip, all_cues, total}
use telematica_telemetria.Montage.Order.{Laid, IsSound, all_cues-Laid}
use telematica_telemetria.Montage.StampTrip.{read_stamp-stamp}
use telematica_telemetria.Montage.Srt.{load_srt, write_srt, read_times, write_times}
use telematica_telemetria.Montage.TimesTrip.{read_times-write_times}

-- tenths of a second
abbrev tenths : Grouping
tenths = record {
  max_chars = 84;
  max_dur = 60;
  min_dur = 8;
  corrections = [];
  is_word = λ c. leb b'a' c && leb c b'z';
}

-- The first is a sentence of its own, lengthened and then cut by the second; the third continues it.
abbrev cues : List Cue
cues =
    record { start = 10; stop = 13; text = codes "Hola." }
    ∷ record { start = 15; stop = 30; text = codes "la sec" }
    ∷ record { start = 30; stop = 44; text = codes "uencia" }
    ∷ []

regroup-InOrder_example : InOrder (regroup tenths cues)
regroup-InOrder_example = regroup-InOrder tenths cues

read_back : read_stamp (stamp 1000 3_725_042 ++ codes " --> ") ≡ some (3_725_042, codes " --> ")
read_back = read_stamp-stamp 3_725_042 (codes " --> ") (omega arith) refl

-- 20 seconds less the 5 that are cut out, played a quarter faster
abbrev clip : Clip
clip = record {
  t0 = 0;
  t1 = 200;
  cut = some (100, 150);
  slower = λ t. t * 4 / 5;
  cues =
      record { start = 80; stop = 105; text = codes "uno" }
      ∷ record { start = 110; stop = 140; text = codes "dos" }
      ∷ record { start = 160; stop = 190; text = codes "tres" }
      ∷ [];
}

clip-IsSound : IsSound clip
clip-IsSound = record {
  cut = (omega arith, (omega arith, omega arith));
  slower = λ a b le. omega arith;
  cues = (
    omega arith,
    (omega arith, (omega arith, (omega arith, (omega arith, (omega arith, omega arith))))),
  );
}

all_cues-Laid_example : Laid 0 (all_cues 0 (clip ∷ clip ∷ [])) (total 0 (clip ∷ clip ∷ []))
all_cues-Laid_example = all_cues-Laid 0 (clip ∷ clip ∷ []) (clip-IsSound, (clip-IsSound, tt))

cut_and_sped :
    all_cues 0 (clip ∷ [])
    ≡ record { start = 64; stop = 80; text = codes "uno" }
      ∷ record { start = 88; stop = 112; text = codes "tres" }
      ∷ []
unfolding all_cues
cut_and_sped = refl

read_times-write_times_example :
    read_times (write_times 1000 3_725_042 3_726_000) ≡ some (3_725_042, 3_726_000)
read_times-write_times_example =
    read_times-write_times 3_725_042 3_726_000 (omega arith) (omega arith)

-- a file of two cues, written and read
srt_example :
    load_srt (
      write_srt 1000
        (record { start = 80; stop = 105; text = codes "uno dos" }
          ∷ record { start = 110; stop = 2140; text = codes "tres" }
          ∷ [])
        0)
    ≡ some (
        record { start = 80; stop = 105; text = codes "uno dos" }
        ∷ record { start = 110; stop = 2140; text = codes "tres" }
        ∷ [])
unfolding load_srt write_srt stamp show_nat two_lines strip split read_stamp two_digits expect
    more_digits is_space
srt_example = refl

abbrev slides : Scene ℕ
slides = record {
  id = codes "05";
  title = codes "Nodos";
  who = codes "Valeria";
  cam = codes "full";
  start = 0;
  dur = 90;
  cut = some (10, 20);
  overlays = record { file = codes "a.png"; from = 24; to = 46 } ∷ [];
}

abbrev end_less : ℕ → ℕ
end_less t = t - 4

graph_wired_example :
    wire_up 2 (graph show_nat end_less slides) []
    ≡ some (named (codes "vout") ∷ named (codes "aout") ∷ [])
graph_wired_example = graph_wired show_nat end_less slides

abbrev five_words : List Text
five_words = codes "uno" ∷ codes "dos" ∷ codes "tres" ∷ codes "cuatro" ∷ codes "cinco" ∷ []

five_words-IsWord : All IsWord five_words
unfolding is_space
five_words-IsWord = (
  (refl, (refl, (refl, tt))),
  (
    (refl, (refl, (refl, tt))),
    (
      (refl, (refl, (refl, (refl, tt)))),
      (
        (refl, (refl, (refl, (refl, (refl, (refl, tt)))))),
        ((refl, (refl, (refl, (refl, (refl, tt))))), tt),
      ),
    ),
  ),
)

five_lines : two_lines 13 (join 32 five_words) ≡ codes "uno dos tres\\Ncuatro cinco"
unfolding two_lines is_space strip join
five_lines = refl

two_lines_lem_example :
    ((two_lines 13 (join 32 five_words) ≡ join 32 five_words) × (length (join 32 five_words) ≤ 13))
    ⊎ ((a : List Text) × (b : List Text) × (five_words ≡ a ++ b)
        × (13 < length (join 32 five_words))
        × (two_lines 13 (join 32 five_words) ≡ join 32 a ++ codes "\\N" ++ join 32 b)
        × (length (join 32 a) ≤ 13)
        × IsFull 13 (join 32 a) b)
two_lines_lem_example = two_lines_lem 13 five_words five_words-IsWord

-- every overlay of a clip ends after it starts and within the clip
abbrev overlays_fit : Entry → Bool
overlays_fit e = go (scene_of e).overlays
  where
    go : List (Overlay ℕ) → Bool
    go [] = true
    go (o ∷ overlays) = ltb o.from o.to && leb o.to (scene_of e).dur && go overlays

clips_fit : map overlays_fit clips ≡ map (λ e. true) clips
unfolding scene_of
clips_fit = refl

vtt_example :
    to_vtt (write_srt 1000 (record { start = 80; stop = 105; text = codes "uno, dos" } ∷ []) 0)
    ≡ codes "WEBVTT\n\n1\n00:00:00.080 --> 00:00:00.105\nuno, dos\n\n"
unfolding to_vtt write_srt stamp show_nat two_lines strip
vtt_example = refl

faster_example : (with_speed (some (codes "1.06")) (codes "w/05.mp4")).1 ≡ codes "w/05.fast.mp4"
unfolding with_speed replace
faster_example = refl

list_example : concat_list (codes "c:\\w\\05.mp4" ∷ []) ≡ codes "file 'c:/w/05.mp4'\n"
unfolding concat_list replace
list_example = refl
