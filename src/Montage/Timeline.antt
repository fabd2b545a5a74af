-- ===== src/Montage/Timeline.antt =====
-- docs/video/edicion/montaje.py: how `render_clip` and `main` move the cues, `--solo` left out. Times are
-- whole numbers of ticks, from the start of the recording, at or behind the start of the clip.
use telematica_telemetria.Base.{
  ℕ, ◌+◌, ◌-◌, Bool, false, not, ◌&&◌, Option, none, some, List, [], ◌∷◌, ◌++◌, map, if◌then◌else◌,
  leb, ltb,
}
use telematica_telemetria.Montage.Cues.{Cue}

-- What `render_clip` reads of a clip: `trim`, `cut`, what `t / speed` is, and the cues of `regroup`.
pub record Clip : Type 0 where
  pub t0 : ℕ
  pub t1 : ℕ
  pub cut : Option (ℕ × ℕ)
  pub slower : ℕ → ℕ
  pub cues : List Cue

-- `remap`
unfoldable pub remap : Clip → ℕ → ℕ
remap c t =
    let u = t - c.t0 in
    elim c.cut [
      | none ↦ u
      | some (from, to) ↦
          (let ca = from - c.t0 in
            let cb = to - c.t0 in if ltb cb u then u - (cb - ca) else if ltb ca u then ca else u)
    ]

-- `cut and cut[0] <= a < cut[1]`
unfoldable pub in_cut : Option (ℕ × ℕ) → ℕ → Bool
in_cut none a = false
in_cut (some (from, to)) a = leb from a && ltb a to

-- the filter of the list of cues
unfoldable pub is_kept : Clip → Cue → Bool
unfolding in_cut
is_kept c q = leb c.t0 q.start && ltb q.start c.t1 && not (in_cut c.cut q.start)

unfoldable pub kept : Clip → List Cue → List Cue
unfolding is_kept
kept c [] = []
kept c (q ∷ cues) = let rest = kept c cues in if is_kept c q then q ∷ rest else rest

-- both times of a cue moved
unfoldable pub moved : (ℕ → ℕ) → Cue → Cue
moved f q = record { start = f q.start; stop = f q.stop; text = q.text }

-- `dur` and `cues` of what `render_clip` returns
unfoldable pub duration : Clip → ℕ
unfolding remap
duration c = c.slower (remap c c.t1)

unfoldable pub clip_cues : Clip → List Cue
unfolding kept moved remap
clip_cues c = map (moved c.slower) (map (moved (remap c)) (kept c c.cues))

-- the loop of `main`, with the offset so far
unfoldable pub all_cues : ℕ → List Clip → List Cue
unfolding clip_cues duration moved
all_cues offset [] = []
all_cues offset (c ∷ clips) =
    map (moved (λ t. t + offset)) (clip_cues c) ++ all_cues (offset + duration c) clips

-- the offset behind the loop
unfoldable pub total : ℕ → List Clip → ℕ
unfolding duration
total offset [] = offset
total offset (c ∷ clips) = total (offset + duration c) clips
