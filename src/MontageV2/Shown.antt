-- ===== src/MontageV2/Shown.antt =====
-- docs/video/edicion/montaje_v2.py: the subtitles of a clip and its section card.
use telematica_telemetria.Base.{
  ℕ, false, ◌*◌, ◌≤◌, List, [], ◌∷◌, ◌≡◌, refl, arith, ltb, leb, if◌then◌else◌, Bool-cases, inl,
  inr,
}
use telematica_telemetria.Base.Text.{Text}
use telematica_telemetria.Montage.Cues.{Cue}
use telematica_telemetria.Montage.Timeline.{Clip, remap}
use telematica_telemetria.Montage.Order.{Laid, IsSound, remapped-Laid}
use telematica_telemetria.MontageV2.Ass.{shown, ass_cues}

-- behind the card every cue is shown
all_shown : (e lo hi : ℕ) (cues : List Cue) → 42 * e ≤ lo → Laid lo cues hi → shown e 0 cues ≡ cues
unfolding shown
all_shown e lo hi [] le h = refl
all_shown e lo hi (c ∷ cues) le h =
    let late : ltb c.start (42 * e) ≡ false = ground (arith, h.0) in
    rw (late, all_shown e c.stop hi cues (omega (arith, h.0, h.1.0)) h.1.1) refl

-- when and which texts end later than 4.4 seconds after the start
abbrev pub late : ℕ → List Cue → List (ℕ × Text)
late e [] = []
late e (c ∷ cues) =
    let rest = late e cues in if leb c.stop (44 * e) then rest else (c.stop, c.text) ∷ rest

late-shown : (e offset : ℕ) (cues : List Cue) → late e (shown e offset cues) ≡ late e cues
unfolding shown
late-shown e offset [] = refl
late-shown e offset (c ∷ cues) = ground (arith, late-shown e offset cues)

Laid-shown :
    (e lo hi : ℕ) (cues : List Cue)
    → 42 * e ≤ hi
    → Laid lo cues hi
    → Laid (42 * e) (shown e 0 cues) hi
unfolding shown
Laid-shown e lo hi [] le h = le
Laid-shown e lo hi (c ∷ cues) le h = elim (Bool-cases (ltb c.start (42 * e))) [
  | inl early ↦ elim (Bool-cases (leb c.stop (44 * e))) [
    | inl gone ↦ rw (early, gone) (Laid-shown e c.stop hi cues le h.1.1)
    | inr held ↦
        let behind : 42 * e ≤ c.stop = ground arith in
        rw (early, held, all_shown e c.stop hi cues behind h.1.1) (omega arith, (behind, h.1.1))
  ]
  | inr on_time ↦
      let behind : 42 * e ≤ c.start = ground arith in
      rw (on_time, all_shown e c.stop hi cues (omega (arith, h.1.0)) h.1.1) (behind, (h.1.0, h.1.1))
]

-- If a clip lasts at least the 4.2 seconds of its section card, the cut lies within it, the speed keeps the
-- order of times, and its cues follow one another and stop by its end, then the subtitles that write_ass writes for it begin behind the card,
-- follow one another and stop by its end; and of the cues that stop later than 4.4 seconds after the
-- start, each is there with its text and its end, in their order.
pub shown_after_card :
    (e : ℕ) (c : Clip)
    → IsSound c
    → 42 * e ≤ remap c c.t1
    → Laid (42 * e) (shown e 0 (ass_cues c)) (remap c c.t1)
      × (late e (shown e 0 (ass_cues c)) ≡ late e (ass_cues c))
unfolding ass_cues
shown_after_card e c h le = (
  Laid-shown e (remap c c.t0) (remap c c.t1) (ass_cues c) le (remapped-Laid c h),
  late-shown e 0 (ass_cues c),
)
