-- ===== src/Montage/TimesTrip.antt =====
-- docs/video/edicion/montaje.py: the time lines of the subtitles, written and read.
use telematica_telemetria.Base.{ℕ, ◌<◌, some, [], ◌++◌, ◌≡◌, refl, sym, ap, ◌∙◌, append-nil, arith}
use telematica_telemetria.Base.Text.{Text, codes}
use telematica_telemetria.Montage.Stamp.{stamp, read_stamp, expect}
use telematica_telemetria.Montage.Srt.{expect_all, read_times, write_times}
use telematica_telemetria.Montage.StampTrip.{read_stamp-stamp}

last_stamp : (b : ℕ) → b < 360000000 → read_stamp (stamp 1000 b) ≡ some (b, [])
last_stamp b h = ap read_stamp (sym (append-nil (stamp 1000 b))) ∙ read_stamp-stamp b [] h tt

expect_arrow : (s : Text) → expect_all (codes " --> ") (codes " --> " ++ s) ≡ some s
unfolding expect_all expect
expect_arrow s = refl

-- the parts of a time line, read in order
read_times_lem :
    (line s s' s'' : Text) (a b : ℕ)
    → read_stamp line ≡ some (a, s)
    → expect_all (codes " --> ") s ≡ some s'
    → read_stamp s' ≡ some (b, s'')
    → read_times line ≡ some (a, b)
unfolding read_times
read_times_lem line s s' s'' a b e e' e'' = ground (arith, e, e', e'')

-- For all times of whole milliseconds below 100 hours, `load_srt` reads both times of the time line that
-- `write_srt` writes, to the millisecond.
pub read_times-write_times :
    (a b : ℕ) → a < 360000000 → b < 360000000 → read_times (write_times 1000 a b) ≡ some (a, b)
unfolding write_times
read_times-write_times a b ha hb =
    read_times_lem (write_times 1000 a b) (codes " --> " ++ stamp 1000 b) (stamp 1000 b) [] a b
      (read_stamp-stamp a (codes " --> " ++ stamp 1000 b) ha refl) (expect_arrow (stamp 1000 b))
      (last_stamp b hb)
