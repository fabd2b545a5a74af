-- ===== src/Montage/Srt.antt =====
-- docs/video/edicion/montaje.py: `load_srt` and `write_srt`, with times in milliseconds in the first and
-- `d` ticks to a second in the second. The text of a file is what reading in text mode gives.
use telematica_telemetria.Base.{
  ℕ, ◌+◌, ◌&&◌, Option, some, ◌>>=◌, List, [], ◌∷◌, ◌++◌, if◌then◌else◌, ◌==◌,
}
use telematica_telemetria.Base.Text.{Text, codes, strip, split, push, show_nat}
use telematica_telemetria.Montage.Cues.{Cue}
use telematica_telemetria.Montage.Lines.{two_lines}
use telematica_telemetria.Montage.Stamp.{stamp, expect, read_stamp}

-- `text.split("\n\n")`
unfoldable pub split_blank : Text → List Text
split_blank [] = [] ∷ []
split_blank (c ∷ []) = (c ∷ []) ∷ []
split_blank (c ∷ d ∷ s) =
    let apart = split_blank s in
    let onward = split_blank (d ∷ s) in
    if c == b'\n' && d == b'\n' then [] ∷ apart else push c onward

-- several literal characters of a pattern
unfoldable pub expect_all : Text → Text → Option Text
expect_all [] s = some s
expect_all (c ∷ pattern) s = do rest ← expect c s; expect_all pattern rest

-- the match of a time line and its two times; what follows is not looked at
unfoldable pub read_times : Text → Option (ℕ × ℕ)
unfolding expect_all
read_times line = do
  (a, s) ← read_stamp line
  s' ← expect_all (codes " --> ") s
  (b, s'') ← read_stamp s'
  some (a, b)

-- `" ".join(lines[2:]).strip()`
unfoldable pub join_lines : List Text → Text
join_lines [] = []
join_lines (l ∷ []) = l
join_lines (l ∷ m ∷ rest) = l ++ 32 ∷ join_lines (m ∷ rest)

-- one block: fewer than three lines are passed over; a second line that does not match is a TypeError
unfoldable pub read_block : List Text → List Cue → Option (List Cue)
unfolding read_times join_lines
read_block (i ∷ times ∷ l ∷ rest) cues = do
  (a, b) ← read_times times
  some (record { start = a; stop = b; text = strip (join_lines (l ∷ rest)) } ∷ cues)
read_block _ cues = some cues

unfoldable pub read_blocks : List Text → Option (List Cue)
unfolding read_block
read_blocks [] = some []
read_blocks (block ∷ blocks) = do cues ← read_blocks blocks; read_block (split b'\n' block) cues

-- `load_srt`; `none` is its TypeError
unfoldable pub load_srt : Text → Option (List Cue)
unfolding split_blank read_blocks
load_srt text = read_blocks (split_blank (strip text))

-- `.replace("\\N", "\n")`
unfoldable pub break_lines : Text → Text
break_lines [] = []
break_lines (c ∷ []) = c ∷ []
break_lines (c ∷ d ∷ s) =
    let apart = break_lines s in
    let onward = break_lines (d ∷ s) in
    if c == b'\\' && d == b'N' then b'\n' ∷ apart else c ∷ onward

-- the time line of a cue
unfoldable pub write_times : ℕ → ℕ → ℕ → Text
write_times d a b = stamp d a ++ (codes " --> " ++ stamp d b)

-- the loop of `write_srt`, from the number `i` on, with lines of `width`
unfoldable pub write_cues : ℕ → ℕ → ℕ → ℕ → List Cue → Text
unfolding write_times break_lines
write_cues width d offset i [] = []
write_cues width d offset i (c ∷ cues) =
    show_nat i
    ++ b'\n'
      ∷ (write_times d (c.start + offset) (c.stop + offset)
          ++ b'\n'
            ∷ (break_lines (two_lines width c.text)
                ++ b'\n' ∷ b'\n' ∷ write_cues width d offset (i + 1) cues))

unfoldable pub write_srt : ℕ → List Cue → ℕ → Text
unfolding write_cues
write_srt d cues offset = write_cues 42 d offset 1 cues
