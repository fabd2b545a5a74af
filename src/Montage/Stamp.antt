-- ===== src/Montage/Stamp.antt =====
-- docs/video/edicion/montaje.py: time stamps. `st` of `write_srt`, `ass_time`, and the reading of a
-- time line in `load_srt`. A time is a number of ticks, and `d` ticks are a second: the source's
-- floats are taken as exact. Where the exact time lies on the boundary between two roundings, as 2.9995
-- seconds do, the float can lie on the other side of it.
use telematica_telemetria.Base.{
  ◌>>=◌, ℕ, ◌+◌, ◌-◌, ◌*◌, ◌/◌, ◌%◌, Option, none, some, [], ◌∷◌, ◌++◌, ◌≡◌, refl, if◌then◌else◌,
  ltb, ◌==◌, length,
}
use telematica_telemetria.Base.Text.{is_digit, more_digits, Text, codes, show_nat, repeat}

-- `round(n / d)`: a half goes to the even neighbour
unfoldable pub round_even : ℕ → ℕ → ℕ
round_even n d =
    let q = n / d in
    let r = n % d in
    if ltb (2 * r) d then q else if ltb d (2 * r) then q + 1 else if q % 2 == 0 then q else q + 1

-- `f"{n:0wd}"`
unfoldable pub pad : ℕ → ℕ → Text
pad w n = let s = show_nat n in repeat b'0' (w - length s) ++ s

-- the milliseconds of `st`: `int(round((s - int(s)) * 1000))`
unfoldable pub millis : ℕ → ℕ → ℕ
unfolding round_even
millis d s = round_even (s % d * 1000) d

-- `st`
unfoldable pub stamp : ℕ → ℕ → Text
unfolding millis pad
stamp d s =
    pad 2 (s / (3600 * d))
    ++ b':'
      ∷ (pad 2 (s % (3600 * d) / (60 * d))
          ++ b':' ∷ (pad 2 (s % (60 * d) / d) ++ b',' ∷ pad 3 (millis d s)))

-- the hundredths of a second of `ass_time`: `f"{sec:05.2f}"` rounds to them
unfoldable pub hundredths : ℕ → ℕ → ℕ
unfolding round_even
hundredths d s = round_even (s % (60 * d) * 100) d

-- `ass_time`
unfoldable pub ass_time : ℕ → ℕ → Text
unfolding hundredths pad
ass_time d s =
    show_nat (s / (3600 * d))
    ++ b':'
      ∷ (pad 2 (s % (3600 * d) / (60 * d))
          ++ b':' ∷ (pad 2 (hundredths d s / 100) ++ b'.' ∷ pad 2 (hundredths d s % 100)))

-- one `\d`
unfoldable pub digit : Text → Option (ℕ × Text)
digit [] = none
digit (c ∷ s) = if is_digit c then some (c - b'0', s) else none

-- `(\d\d)`
unfoldable pub two_digits : Text → Option (ℕ × Text)
unfolding digit
two_digits s = do (a, s₁) ← digit s; (b, s₂) ← digit s₁; some (a * 10 + b, s₂)

-- one literal character
unfoldable pub expect : ℕ → Text → Option Text
expect c [] = none
expect c (a ∷ s) = if a == c then some s else none

-- `(\d\d):(\d\d):(\d\d),(\d+)` and its time in milliseconds
unfoldable pub read_stamp : Text → Option (ℕ × Text)
read_stamp s = do
  (h, s₁) ← two_digits s
  s₂ ← expect b':' s₁
  (m, s₃) ← two_digits s₂
  s₄ ← expect b':' s₃
  (sec, s₅) ← two_digits s₄
  s₆ ← expect b',' s₅
  (first, s₇) ← digit s₆
  let (ms, s₈) = more_digits first s₇
  some (h * 3600000 + m * 60000 + sec * 1000 + ms, s₈)

stamp-example : stamp 1000 3_725_042 ≡ codes "01:02:05,042"
unfolding stamp show_nat
stamp-example = refl

read_stamp-example : read_stamp (codes "01:02:05,042 x") ≡ some (3_725_042, codes " x")
unfolding read_stamp two_digits expect more_digits
read_stamp-example = refl

-- 1.9996 seconds, in ticks of a tenth of a millisecond
stamp-overflow : stamp 10000 19996 ≡ codes "00:00:01,1000"
unfolding stamp show_nat
stamp-overflow = refl
