-- ===== src/Montage/Order.antt =====
-- docs/video/edicion/montaje.py: the order of the cues of all clips, moved one behind the other.
use telematica_telemetria.Base.{
  ℕ, ◌+◌, ◌≤◌, Option, none, some, List, [], ◌∷◌, ◌++◌, map, ◌≡◌, arith, All, Bool-cases, inl, inr,
}
use mathlib.Core.Path.{subst}
use telematica_telemetria.Montage.Cues.{Cue}
use telematica_telemetria.Montage.Timeline.{
  Clip, remap, is_kept, kept, moved, duration, clip_cues, all_cues, total,
}

-- The cues follow one another between two times: none starts before the one in front stops.
abbrev pub Laid : ℕ → List Cue → ℕ → Type 0
Laid lo [] hi = lo ≤ hi
Laid lo (q ∷ cues) hi = (lo ≤ q.start) × ((q.start ≤ q.stop) × Laid q.stop cues hi)

abbrev pub IsMonotone : (ℕ → ℕ) → Type 0
IsMonotone f = (a b : ℕ) → a ≤ b → f a ≤ f b

abbrev pub IsCut : Clip → Option (ℕ × ℕ) → Type 0
IsCut c none = Unit
IsCut c (some (from, to)) = (c.t0 ≤ from) × ((from ≤ to) × (to ≤ c.t1))

-- What a clip must have: a cut within it, a speed that keeps the order, and cues that follow one another
-- and stop by its end.
pub record IsSound (c : Clip) : Type 0 where
  pub cut : IsCut c c.cut
  pub slower : IsMonotone c.slower
  pub cues : Laid c.t0 c.cues c.t1

Laid_le : (lo hi : ℕ) (cues : List Cue) → Laid lo cues hi → lo ≤ hi
Laid_le lo hi [] h = h
Laid_le lo hi (q ∷ cues) h = omega (arith, h.0, h.1.0, Laid_le q.stop hi cues h.1.1)

Laid_earlier : (lo lo' hi : ℕ) (cues : List Cue) → lo ≤ lo' → Laid lo' cues hi → Laid lo cues hi
Laid_earlier lo lo' hi [] e h = omega arith
Laid_earlier lo lo' hi (q ∷ cues) e h = (omega (arith, h.0), h.1)

Laid-append :
    (lo mid hi : ℕ) (xs ys : List Cue) → Laid lo xs mid → Laid mid ys hi → Laid lo (xs ++ ys) hi
Laid-append lo mid hi [] ys h k = Laid_earlier lo mid hi ys h k
Laid-append lo mid hi (q ∷ xs) ys h k = (h.0, (h.1.0, Laid-append q.stop mid hi xs ys h.1.1 k))

Laid-moved :
    (f : ℕ → ℕ) (lo hi : ℕ) (cues : List Cue)
    → IsMonotone f
    → Laid lo cues hi
    → Laid (f lo) (map (moved f) cues) (f hi)
unfolding moved
Laid-moved f lo hi [] m h = m lo hi h
Laid-moved f lo hi (q ∷ cues) m h =
    (m lo q.start h.0, (m q.start q.stop h.1.0, Laid-moved f q.stop hi cues m h.1.1))

Laid-kept : (c : Clip) (lo hi : ℕ) (cues : List Cue) → Laid lo cues hi → Laid lo (kept c cues) hi
unfolding kept
Laid-kept c lo hi [] h = h
Laid-kept c lo hi (q ∷ cues) h = elim (Bool-cases (is_kept c q)) [
  | inl e ↦ rw e (h.0, (h.1.0, Laid-kept c q.stop hi cues h.1.1))
  | inr e ↦ rw e (
      Laid_earlier lo q.stop hi (kept c cues) (omega (arith, h.0, h.1.0))
        (Laid-kept c q.stop hi cues h.1.1))
]

remap-IsMonotone : (c : Clip) → IsCut c c.cut → IsMonotone (remap c)
unfolding remap
remap-IsMonotone c h a b le = ground arith

remap_start : (c : Clip) → remap c c.t0 ≡ 0
unfolding remap
remap_start c = ground arith

pub remapped-Laid :
    (c : Clip)
    → IsSound c
    → Laid (remap c c.t0) (map (moved (remap c)) (kept c c.cues)) (remap c c.t1)
remapped-Laid c h =
    let all = Laid-kept c c.t0 c.t1 c.cues h.cues in
    Laid-moved (remap c) c.t0 c.t1 (kept c c.cues) (remap-IsMonotone c h.cut) all

clip_cues-Laid : (c : Clip) → IsSound c → Laid 0 (clip_cues c) (duration c)
unfolding clip_cues duration
clip_cues-Laid c h =
    let slowed =
      Laid-moved c.slower (remap c c.t0) (remap c c.t1) (map (moved (remap c)) (kept c c.cues))
        h.slower (remapped-Laid c h) in
    Laid_earlier 0 (c.slower (remap c c.t0)) (duration c) _ (omega arith) slowed

Laid_shifted :
    (offset d : ℕ) (cues : List Cue)
    → Laid 0 cues d
    → Laid offset (map (moved (λ t. t + offset)) cues) (offset + d)
Laid_shifted offset d cues h =
    let all = map (moved (λ t. t + offset)) cues in
    let shifted : Laid (0 + offset) all (d + offset) =
      Laid-moved (λ t. t + offset) 0 d cues (λ a b le. omega arith) h in
    let ends : Laid (0 + offset) all (offset + d) =
      subst (λ hi. Laid (0 + offset) all hi) (omega arith) shifted in
    Laid_earlier offset (0 + offset) (offset + d) all (omega arith) ends

-- If in every clip the cut lies within the clip, the speed keeps the order of times, and the cues follow
-- one another and stop by the end of the clip, then so do all cues of the video: whatever is cut out and
-- left out, each clip's cues stay within its part of the video, and none starts before the one in front
-- of it stops.
pub all_cues-Laid :
    (offset : ℕ) (clips : List Clip)
    → All IsSound clips
    → Laid offset (all_cues offset clips) (total offset clips)
unfolding all_cues total
all_cues-Laid offset [] h = omega arith
all_cues-Laid offset (c ∷ clips) h =
    let next = offset + duration c in
    Laid-append offset next (total next clips) (map (moved (λ t. t + offset)) (clip_cues c))
      (all_cues next clips) (Laid_shifted offset (duration c) (clip_cues c) (clip_cues-Laid c h.0))
      (all_cues-Laid next clips h.1)
