-- ===== src/Montage/StampTrip.antt =====
-- docs/video/edicion/montaje.py: the time stamps of `st`, their length and how `load_srt` reads them.
use telematica_telemetria.Base.{
  ℕ, zero, suc, ◌+◌, ◌-◌, ◌*◌, ◌/◌, ◌%◌, ◌≤◌, ◌<◌, false, some, [], ◌∷◌, ◌++◌, ◌≡◌, refl, arith,
  if◌then◌else◌, leb, length, append_assoc, Bool-cases, inl, inr, leb→le,
}
use telematica_telemetria.Base.Text.{more_digits, is_digit, Text, show_nat}
use telematica_telemetria.Montage.Stamp.{pad, millis, stamp, digit, two_digits, expect, read_stamp}

show_one : (n : ℕ) → n ≤ 9 → show_nat n ≡ (b'0' + n) ∷ []
unfolding show_nat
show_one n h = ground arith

show_two : (n : ℕ) → 10 ≤ n → n ≤ 99 → show_nat n ≡ (b'0' + n / 10) ∷ (b'0' + n % 10) ∷ []
unfolding show_nat
show_two zero h l = absurd (omega arith)
show_two (suc n) h l = ground arith

show_three :
    (n : ℕ)
    → 100 ≤ n
    → n ≤ 999
    → show_nat n ≡ (b'0' + n / 100) ∷ (b'0' + n / 10 % 10) ∷ (b'0' + n % 10) ∷ []
unfolding show_nat
show_three zero h l = absurd (omega arith)
show_three (suc zero) h l = absurd (omega arith)
show_three (suc (suc n)) h l = ground arith

pad_two : (n : ℕ) → n ≤ 99 → pad 2 n ≡ (b'0' + n / 10) ∷ (b'0' + n % 10) ∷ []
unfolding pad
pad_two n h = elim (Bool-cases (leb n 9)) [
  | inl e ↦ rw (show_one n (leb→le n 9 e), pad) (ground arith)
  | inr e ↦ rw (show_two n (ground arith) h, pad)
]

pad_three :
    (n : ℕ) → n ≤ 999 → pad 3 n ≡ (b'0' + n / 100) ∷ (b'0' + n / 10 % 10) ∷ (b'0' + n % 10) ∷ []
unfolding pad
pad_three n h = elim (Bool-cases (leb n 9)) [
  | inl e ↦ rw (show_one n (leb→le n 9 e), pad) (ground arith)
  | inr e ↦ elim (Bool-cases (leb n 99)) [
    | inl e' ↦ rw (show_two n (ground arith) (leb→le n 99 e'), pad) (ground arith)
    | inr e' ↦ rw (show_three n (ground arith) h, pad)
  ]
]

-- a digit that was written is read
digit_lem : (n : ℕ) (s : Text) → n ≤ 9 → digit ((b'0' + n) ∷ s) ≡ some (n, s)
unfolding digit
digit_lem n s h = ground arith

two_digits_lem : (n : ℕ) (s : Text) → n ≤ 99 → two_digits (pad 2 n ++ s) ≡ some (n, s)
unfolding two_digits
two_digits_lem n s h =
    rw (pad_two n h)
      (ground (arith, digit_lem (n / 10) ((b'0' + n % 10) ∷ s), digit_lem (n % 10) s))

-- a text that does not begin with a digit
abbrev pub NoDigit : Text → Type 0
NoDigit [] = Unit
NoDigit (c ∷ s) = is_digit c ≡ false

more_digits_end : (n : ℕ) (s : Text) → NoDigit s → more_digits n s ≡ (n, s)
unfolding more_digits
more_digits_end n [] h = refl
more_digits_end n (c ∷ s) h = ground arith

more_digits_step :
    (n k : ℕ) (s : Text) → k ≤ 9 → more_digits n ((b'0' + k) ∷ s) ≡ more_digits (n * 10 + k) s
unfolding more_digits
more_digits_step n k s h = let e : b'0' + k - b'0' ≡ k = omega arith in rw e (ground arith)

-- three digits that were written are read as a digit and more digits
millis_lem :
    (n : ℕ) (s : Text)
    → n ≤ 999
    → NoDigit s
    → (digit (pad 3 n ++ s) ≡ some (n / 100, (b'0' + n / 10 % 10) ∷ (b'0' + n % 10) ∷ s))
      × (more_digits (n / 100) ((b'0' + n / 10 % 10) ∷ (b'0' + n % 10) ∷ s) ≡ (n, s))
millis_lem n s h nd = (
  rw (pad_three n h) (digit_lem (n / 100) _ (omega arith)),
  rw
      (
        more_digits_step (n / 100) (n / 10 % 10) ((b'0' + n % 10) ∷ s) (omega arith),
        more_digits_step (n / 100 * 10 + n / 10 % 10) (n % 10) s (omega arith),
      )
      (let e : (n / 100 * 10 + n / 10 % 10) * 10 + n % 10 ≡ n = omega arith in
        rw e (more_digits_end n s nd)),
)

millis_exact : (s : ℕ) → millis 1000 s ≡ s % 1000
unfolding millis
millis_exact s = ground arith

-- the parts of a stamp, read in order
read_parts :
    (h m x ms : ℕ) (rest : Text)
    → h ≤ 99
    → m ≤ 99
    → x ≤ 99
    → ms ≤ 999
    → NoDigit rest
    → read_stamp (pad 2 h ++ b':' ∷ (pad 2 m ++ b':' ∷ (pad 2 x ++ b',' ∷ (pad 3 ms ++ rest))))
      ≡ some (h * 3600000 + m * 60000 + x * 1000 + ms, rest)
unfolding read_stamp expect
read_parts h m x ms rest hh hm hx hms nd =
    let after_x = pad 3 ms ++ rest in
    let after_m = pad 2 x ++ b',' ∷ after_x in
    let after_h = pad 2 m ++ b':' ∷ after_m in
    ground (
      arith,
      two_digits_lem h (b':' ∷ after_h) hh,
      two_digits_lem m (b':' ∷ after_m) hm,
      two_digits_lem x (b',' ∷ after_x) hx,
      millis_lem ms rest hms nd,
    )

stamp_parts :
    (d s : ℕ) (rest : Text)
    → stamp d s ++ rest
      ≡ pad 2 (s / (3600 * d))
        ++ b':'
          ∷ (pad 2 (s % (3600 * d) / (60 * d))
              ++ b':' ∷ (pad 2 (s % (60 * d) / d) ++ b',' ∷ (pad 3 (millis d s) ++ rest)))
unfolding stamp
stamp_parts d s rest = simp append_assoc

-- For every time of whole milliseconds below 100 hours, what `st` writes `load_srt` reads back, to the
-- millisecond, and it goes on with what follows the stamp.
pub read_stamp-stamp :
    (s : ℕ) (rest : Text)
    → s < 360000000
    → NoDigit rest
    → read_stamp (stamp 1000 s ++ rest) ≡ some (s, rest)
read_stamp-stamp s rest h nd =
    let whole : s / 3600000 * 3600000
          + s % 3600000 / 60000 * 60000
          + s % 60000 / 1000 * 1000
          + s % 1000
        ≡ s =
      omega arith in
    rw (
      stamp_parts 1000 s rest,
      millis_exact s,
      read_parts (s / 3600000) (s % 3600000 / 60000) (s % 60000 / 1000) (s % 1000) rest
          (omega arith) (omega arith) (omega arith) (omega arith) nd,
      whole,
    )

length-pad_two : (n : ℕ) → n ≤ 99 → length (pad 2 n) ≡ 2
length-pad_two n h = rw (pad_two n h)

length-pad_three : (n : ℕ) → n ≤ 999 → length (pad 3 n) ≡ 3
length-pad_three n h = rw (pad_three n h)

length-pad_millis : (n : ℕ) → n ≤ 1000 → length (pad 3 n) ≡ (if leb 1000 n then 4 else 3)
unfolding pad show_nat
length-pad_millis n h = elim (Bool-cases (leb n 999)) [
  | inl e ↦ rw (length-pad_three n (leb→le n 999 e)) (ground arith)
  | inr e ↦ let top : n ≡ 1000 = ground arith in rw top
]

millis_tenths : (s : ℕ) → millis 10000 s ≤ 1000
unfolding millis
millis_tenths s = ground arith

millis_overflow : (s : ℕ) → leb 1000 (millis 10000 s) ≡ leb 9995 (s % 10000)
unfolding millis
millis_overflow s = ground arith
