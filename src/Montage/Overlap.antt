-- ===== src/Montage/Overlap.antt =====
-- docs/video/edicion/montaje.py: the cues that `regroup` returns, in their order.
use telematica_telemetria.Base.{ℕ, ◌≤◌, List, [], ◌∷◌, ◌≡◌, arith, if_either}
use telematica_telemetria.Base.Text.{text_eq}
use telematica_telemetria.Montage.Cues.{
  Cue, Grouping, groups, lengthen, trim_last, place, place_all, regroup, turn, fix_text,
}

-- From the latest back: each cue starts no earlier than the one before it stops.
abbrev pub NoOverlap : List Cue → Type 0
NoOverlap [] = Unit
NoOverlap (c ∷ []) = Unit
NoOverlap (d ∷ c ∷ cues) = (c.stop ≤ d.start) × NoOverlap (c ∷ cues)

-- In order: each cue stops before the next one starts.
abbrev pub InOrder : List Cue → Type 0
InOrder [] = Unit
InOrder (c ∷ []) = Unit
InOrder (c ∷ d ∷ cues) = (c.stop ≤ d.start) × InOrder (d ∷ cues)

-- the latest cue of `res` stops before the first of `cues` starts
abbrev Meets : List Cue → List Cue → Type 0
Meets [] cues = Unit
Meets (c ∷ res) [] = Unit
Meets (c ∷ res) (d ∷ cues) = c.stop ≤ d.start

turn-InOrder :
    (res cues : List Cue) → NoOverlap res → InOrder cues → Meets res cues → InOrder (turn res cues)
unfolding turn
turn-InOrder [] cues h o m = o
turn-InOrder (c ∷ []) [] h o m = tt
turn-InOrder (c ∷ []) (d ∷ cues) h o m = (m, o)
turn-InOrder (c ∷ b ∷ res) [] h o m = turn-InOrder (b ∷ res) (c ∷ []) h.1 tt h.0
turn-InOrder (c ∷ b ∷ res) (d ∷ cues) h o m = turn-InOrder (b ∷ res) (c ∷ d ∷ cues) h.1 (m, o) h.0

trim_last-NoOverlap :
    (a : ℕ) (d : Cue) (res : List Cue)
    → d.start ≡ a
    → NoOverlap res
    → NoOverlap (d ∷ trim_last a res)
unfolding trim_last
trim_last-NoOverlap a d [] e h = tt
trim_last-NoOverlap a d (c ∷ []) e h = ground arith
trim_last-NoOverlap a d (c ∷ b ∷ res) e h = ground arith

module _ (g : Grouping) where
  start-lengthen : (c : Cue) → (lengthen g c).start ≡ c.start
  unfolding lengthen
  start-lengthen c = ground arith

  place-NoOverlap : (c : Cue) (res : List Cue) → NoOverlap res → NoOverlap (place g c res)
  unfolding place
  place-NoOverlap c res h =
      let t = fix_text g.corrections c.text in
      let d = lengthen g (record c { text = t }) in
      if_either NoOverlap (text_eq t []) {x = res} {y = d ∷ trim_last c.start res} h
        (trim_last-NoOverlap c.start d res (start-lengthen (record c { text = t })) h)

  place_all-NoOverlap : (cues res : List Cue) → NoOverlap res → NoOverlap (place_all g cues res)
  unfolding place_all
  place_all-NoOverlap [] res h = h
  place_all-NoOverlap (c ∷ cues) res h =
      place_all-NoOverlap cues (place g c res) (place-NoOverlap c res h)

  -- Whatever cues come in, and whatever the corrections do, no cue that `regroup` returns stops after
  -- the next one starts.
  pub regroup-InOrder : (cues : List Cue) → InOrder (regroup g cues)
  unfolding regroup
  regroup-InOrder cues =
      turn-InOrder (place_all g (groups g cues) []) [] (place_all-NoOverlap (groups g cues) [] tt)
        tt (no_next (place_all g (groups g cues) []))
    where
      no_next : (res : List Cue) → Meets res []
      no_next [] = tt
      no_next (c ∷ res) = tt
