-- ===== src/Montage/Cues.antt =====
-- docs/video/edicion/montaje.py: `fix_text` and `regroup`. Times are whole numbers of ticks, `second`
-- of them to a second; the arithmetic of the source on floats is taken as exact. The regular
-- expressions of `FIX` and the class of word characters are parameters.
use telematica_telemetria.Base.{
  ℕ, suc, ◌+◌, ◌-◌, Bool, true, false, not, ◌&&◌, ◌||◌, List, [], ◌∷◌, ◌++◌, if◌then◌else◌, leb,
  ltb, ◌==◌, length,
}
use telematica_telemetria.Base.Text.{Text, is_space, strip, text_eq}

-- `[a, b, t]`
pub record Cue : Type 0 where
  pub start : ℕ
  pub stop : ℕ
  pub text : Text

-- Whether the last character is in a class, or the last but one in front of a line break: `$`.
unfoldable pub ends_in_class : (ℕ → Bool) → Text → Bool
ends_in_class p [] = false
ends_in_class p (c ∷ []) = p c
ends_in_class p (c ∷ d ∷ []) = p d || (p c && d == b'\n')
ends_in_class p (c ∷ d ∷ e ∷ s) = ends_in_class p (d ∷ e ∷ s)

-- `[.?!]`
unfoldable pub is_stop : ℕ → Bool
is_stop c = c == b'.' || c == b'?' || c == b'!'

-- the class of `re.match(r"^[a-z…]{1,4}", t)`, whose other characters the file holds as U+FFFD
unfoldable pub is_lower : ℕ → Bool
is_lower c = (leb b'a' c && leb c b'z') || c == 0xfffd

unfoldable pub starts_lower : Text → Bool
unfolding is_lower
starts_lower [] = false
starts_lower (c ∷ s) = is_lower c

-- the length of `t.split()[0]`, where `t` begins with a character that is no space
unfoldable pub first_word : Text → ℕ
first_word [] = 0
first_word (c ∷ s) = let rest = first_word s in if is_space c then 0 else suc rest

-- `re.sub(r"\s+", " ", t)`; `inside` says that a space was just written
unfoldable pub squeeze : Bool → Text → Text
squeeze inside [] = []
squeeze inside (c ∷ s) =
    let behind = squeeze true s in
    let onward = squeeze false s in
    if is_space c then (if inside then behind else 32 ∷ behind) else c ∷ onward

unfoldable pub apply_all : List (Text → Text) → Text → Text
apply_all [] t = t
apply_all (f ∷ fs) t = apply_all fs (f t)

-- `fix_text`, with one function for each `re.sub` of `FIX`
unfoldable pub fix_text : List (Text → Text) → Text → Text
unfolding apply_all squeeze
fix_text corrections t = strip (squeeze false (apply_all corrections t))

-- What `regroup` is given beside the cues: `max_chars` and `max_dur` (84 characters and 6.0 seconds in
-- every call), the corrections, and the class `\w`.
pub record Grouping : Type 0 where
  pub max_chars : ℕ
  pub max_dur : ℕ
  pub min_dur : ℕ
  pub corrections : List (Text → Text)
  pub is_word : ℕ → Bool

-- `res[-1][1] = a`, on the result with the latest cue first
unfoldable pub trim_last : ℕ → List Cue → List Cue
trim_last a [] = []
trim_last a (c ∷ res) = if ltb a c.stop then record c { stop = a } ∷ res else c ∷ res

-- the cues in front of others, the latest first turned round
unfoldable pub turn : List Cue → List Cue → List Cue
turn [] cues = cues
turn (c ∷ res) cues = turn res (c ∷ cues)

module _ (g : Grouping) where
  -- the text of two cues as one; a short word may be the rest of a word that was cut
  unfoldable pub joined : Cue → Cue → Text
  unfolding ends_in_class starts_lower first_word
  joined cur c =
      cur.text
      ++ (if ends_in_class g.is_word cur.text && starts_lower c.text && leb (first_word c.text) 4
          then []
          else 32 ∷ [])
      ++ c.text

  -- whether a cue goes into the group before it
  unfoldable pub fits : Cue → Cue → Bool
  unfolding joined ends_in_class is_stop
  fits cur c =
      leb (length (joined cur c)) g.max_chars
      && leb (c.stop - cur.start) g.max_dur
      && not (ends_in_class is_stop cur.text)

  -- the first loop of `regroup`: `cur` and then `out`
  unfoldable pub group : Cue → List Cue → List Cue
  unfolding fits
  group cur [] = cur ∷ []
  group cur (c ∷ cues) =
      let onward = group (record { start = cur.start; stop = c.stop; text = joined cur c }) cues in
      let apart = cur ∷ group c cues in if fits cur c then onward else apart

  unfoldable pub groups : List Cue → List Cue
  unfolding group
  groups [] = []
  groups (c ∷ cues) = group c cues

  -- `if b - a < 0.8: b = a + 0.8`
  unfoldable pub lengthen : Cue → Cue
  lengthen c =
      if ltb (c.stop - c.start) g.min_dur then record c { stop = c.start + g.min_dur } else c

  -- one round of the second loop, with `res` the latest first
  unfoldable pub place : Cue → List Cue → List Cue
  unfolding fix_text lengthen trim_last
  place c res =
      let t = fix_text g.corrections c.text in
      if text_eq t [] then res else lengthen (record c { text = t }) ∷ trim_last c.start res

  unfoldable pub place_all : List Cue → List Cue → List Cue
  unfolding place
  place_all [] res = res
  place_all (c ∷ cues) res = place_all cues (place c res)

  -- `regroup`
  unfoldable pub regroup : List Cue → List Cue
  unfolding groups place_all turn
  regroup cues = turn (place_all (groups cues) []) []
