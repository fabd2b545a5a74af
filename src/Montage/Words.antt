-- ===== src/Montage/Words.antt =====
-- docs/video/edicion/montaje.py: `two_lines` and the words of a subtitle.
use telematica_telemetria.Base.{
  ℕ, ◌+◌, ◌≤◌, ◌<◌, false, List, [], ◌∷◌, ◌++◌, ◌≡◌, ◌≢◌, ◌⊎◌, inl, inr, refl, arith, leb, ltb,
  length, ap, ◌∙◌, sym, Bool-cases, append_assoc, append-nil, length-append, All,
}
use telematica_telemetria.Base.Text.{Text, codes, is_space, lstrip, strip, join}
use telematica_telemetria.Montage.Lines.{drop, words_from, words, fill, two_lines}
use mathlib.Core.Path.{subst}
use mathlib.Core.List.{reverse, reverse_aux, reverse-append, reverse-reverse}

-- A word is not empty and has no white space.
abbrev pub IsWord : Text → Type 0
IsWord [] = ⊥
IsWord (c ∷ w) = (is_space c ≡ false) × All (λ d. is_space d ≡ false) w

abbrev IsInk : Text → Type 0
IsInk = All (λ d. is_space d ≡ false)

IsWord-IsInk : (w : Text) → IsWord w → IsInk w
IsWord-IsInk [] h = tt
IsWord-IsInk (c ∷ w) h = h

-- words, each behind a space
abbrev spaced : List Text → Text
spaced [] = []
spaced (w ∷ ws) = 32 ∷ (w ++ spaced ws)

join-spaced : (w : Text) (ws : List Text) → join 32 (w ∷ ws) ≡ w ++ spaced ws
unfolding join
join-spaced w [] = sym (append-nil w)
join-spaced w (v ∷ ws) = ap (λ t. w ++ 32 ∷ t) (join-spaced v ws)

spaced-append : (a b : List Text) → spaced (a ++ b) ≡ spaced a ++ spaced b
spaced-append [] b = refl
spaced-append (w ∷ a) b =
    ap (λ t. 32 ∷ (w ++ t)) (spaced-append a b)
    ∙ ap (λ t. 32 ∷ t) (sym (append_assoc w (spaced a) (spaced b)))

-- the words are read one by one
words_from-append : (w v s : Text) → IsInk v → words_from w (v ++ s) ≡ words_from (w ++ v) s
unfolding words_from
words_from-append w [] s h = ap (λ t. words_from t s) (sym (append-nil w))
words_from-append w (c ∷ v) s h =
    ground (arith, words_from-append (w ++ c ∷ []) v s h.1, append_assoc w (c ∷ []) v)

words_from-spaced :
    (v : Text) (ws : List Text) → IsWord v → All IsWord ws → words_from [] (v ++ spaced ws) ≡ v ∷ ws
unfolding words_from is_space
words_from-spaced [] ws h k = absurd h
words_from-spaced (c ∷ v) [] h k = words_from-append [] (c ∷ v) [] h
words_from-spaced (c ∷ v) (w ∷ ws) h k =
    words_from-append [] (c ∷ v) (spaced (w ∷ ws)) h
    ∙ ap (λ t. (c ∷ v) ∷ t) (words_from-spaced w ws k.0 k.1)

words-join : (ws : List Text) → All IsWord ws → words (join 32 ws) ≡ ws
unfolding words words_from join
words-join [] h = refl
words-join (w ∷ ws) h = ap (words_from []) (join-spaced w ws) ∙ words_from-spaced w ws h.0 h.1

-- The first word behind a line, with its space, is more than the line has room for.
abbrev pub IsFull : ℕ → Text → List Text → Type 0
IsFull width out [] = Unit
IsFull width out (w ∷ b) = width < length out + length w + 1

-- how the first line is filled
abbrev Fills : ℕ → Text → List Text → Text → Type 0
Fills width l1 rest out =
    (a : List Text) × (b : List Text) × (rest ≡ a ++ b)
    × (out ≡ l1 ++ spaced a)
    × (length out ≤ width)
    × IsFull width out b

fill-Fills :
    (width : ℕ) (l1 : Text) (rest : List Text)
    → l1 ≢ []
    → length l1 ≤ width
    → Fills width l1 rest (fill width l1 rest)
unfolding fill
fill-Fills width l1 [] ne lt = ([], [], refl, sym (append-nil l1), lt, tt)
fill-Fills width [] (w ∷ rest) ne lt = absurd (ne refl)
fill-Fills width (c ∷ l1) (w ∷ rest) ne lt =
    let line = (c ∷ l1) ++ 32 ∷ w in
    elim (Bool-cases (ltb width (length (c ∷ l1) + length w + 1))) [
      | inl full ↦ rw (full, fill) ([], w ∷ rest, refl, sym (append-nil (c ∷ l1)), lt, ground arith)
      | inr room ↦
          let fit : length line ≤ width = ground (arith, length-append (c ∷ l1) (32 ∷ w)) in
          let (a, b, split, out, bound, over) = fill-Fills width line rest (λ e. cc) fit in
          rw (room, fill)
            (
              w ∷ a,
              b,
              ap (λ t. w ∷ t) split,
              out ∙ append_assoc (c ∷ l1) (32 ∷ w) (spaced a),
              bound,
              over,
            )
    ]

-- the first line of all
first_line :
    (width : ℕ) (ws : List Text)
    → All IsWord ws
    → (a : List Text) × (b : List Text) × (ws ≡ a ++ b)
      × (fill width [] ws ≡ join 32 a)
      × (length (join 32 a) ≤ width)
      × IsFull width (join 32 a) b
unfolding fill join
first_line width [] h = ([], [], refl, refl, omega arith, tt)
first_line width ([] ∷ ws) h = absurd h.0
first_line width ((c ∷ w) ∷ ws) h = elim (Bool-cases (ltb width (length (c ∷ w) + 1))) [
  | inl full ↦ rw (full, fill) ([], (c ∷ w) ∷ ws, refl, refl, omega arith, ground arith)
  | inr room ↦
      let (a, b, split, out, bound, over) = fill-Fills width (c ∷ w) ws (λ e. cc) (ground arith) in
      let joined = join-spaced (c ∷ w) a in
      rw (room, fill)
        (
          (c ∷ w) ∷ a,
          b,
          ap (λ t. (c ∷ w) ∷ t) split,
          out ∙ sym joined,
          omega (arith, bound, ap length (out ∙ sym joined)),
          subst (λ t. IsFull width t b) (out ∙ sym joined) over,
        )
]

drop-append : (s t : Text) → drop (length s) (s ++ t) ≡ t
unfolding drop
drop-append [] t = refl
drop-append (c ∷ s) t = drop-append s t

-- a text that begins with ink
abbrev Solid : Text → Type 0
Solid [] = ⊥
Solid (c ∷ s) = is_space c ≡ false

lstrip-Solid : (s : Text) → Solid s → lstrip s ≡ s
unfolding lstrip
lstrip-Solid [] h = absurd h
lstrip-Solid (c ∷ s) h = ground arith

Solid-append : (s t : Text) → Solid s → Solid (s ++ t)
Solid-append [] t h = absurd h
Solid-append (c ∷ s) t h = h

reverse_aux-Solid : (s t : Text) → IsInk s → Solid t → Solid (reverse_aux s t)
reverse_aux-Solid [] t h g = g
reverse_aux-Solid (c ∷ s) t h g = reverse_aux-Solid s (c ∷ t) h.1 h.0

-- what is behind a word ends in ink
reverse-Solid :
    (w : Text) (ws : List Text) → IsWord w → All IsWord ws → Solid (reverse (w ++ spaced ws))
reverse-Solid [] ws h k = absurd h
reverse-Solid (c ∷ w) [] h k =
    subst (λ t. Solid (reverse t)) (sym (append-nil (c ∷ w))) (reverse_aux-Solid w (c ∷ []) h.1 h.0)
reverse-Solid w (v ∷ ws) h k =
    let behind = v ++ spaced ws in
    subst Solid
      (sym (
        reverse-append w (32 ∷ behind)
        ∙ ap (λ t. t ++ reverse w) (reverse-append (32 ∷ []) behind)))
      (Solid-append (reverse behind ++ 32 ∷ []) (reverse w)
        (Solid-append (reverse behind) (32 ∷ []) (reverse-Solid v ws k.0 k.1)))

word-Solid : (w : Text) (ws : List Text) → IsWord w → Solid (w ++ spaced ws)
word-Solid [] ws h = absurd h
word-Solid (c ∷ w) ws h = h.0

strip-Solid : (s : Text) → Solid s → Solid (reverse s) → strip s ≡ s
unfolding strip
strip-Solid s h k =
    ap (λ t. reverse (lstrip (reverse t))) (lstrip-Solid s h)
    ∙ ap reverse (lstrip-Solid (reverse s) k)
    ∙ reverse-reverse s

strip-join : (ws : List Text) → All IsWord ws → strip (join 32 ws) ≡ join 32 ws
unfolding strip lstrip join
strip-join [] h = refl
strip-join (w ∷ ws) h =
    let solid = strip-Solid (w ++ spaced ws) (word-Solid w ws h.0) (reverse-Solid w ws h.0 h.1) in
    ap strip (join-spaced w ws) ∙ solid ∙ sym (join-spaced w ws)

strip-spaced : (ws : List Text) → All IsWord ws → strip (spaced ws) ≡ join 32 ws
unfolding strip lstrip join is_space
strip-spaced [] h = refl
strip-spaced (w ∷ ws) h = ap strip (sym (join-spaced w ws)) ∙ strip-join (w ∷ ws) h

All-behind : (a b : List Text) → All IsWord (a ++ b) → All IsWord b
All-behind [] b h = h
All-behind (w ∷ a) b h = All-behind a b h.1

-- what the source takes for the second line
second_line :
    (a b : List Text)
    → All IsWord (a ++ b)
    → strip (drop (length (join 32 a)) (join 32 (a ++ b))) ≡ join 32 b
unfolding join drop
second_line [] b h = strip-join b h
second_line (w ∷ a) b h =
    let whole : join 32 (w ∷ a ++ b) ≡ join 32 (w ∷ a) ++ spaced b =
      join-spaced w (a ++ b)
      ∙ ap (λ t. w ++ t) (spaced-append a b)
      ∙ sym (append_assoc w (spaced a) (spaced b))
      ∙ ap (λ t. t ++ spaced b) (sym (join-spaced w a)) in
    ap (λ t. strip (drop (length (join 32 (w ∷ a))) t)) whole
    ∙ ap strip (drop-append (join 32 (w ∷ a)) (spaced b))
    ∙ strip-spaced b (All-behind (w ∷ a) b h)

-- A text of words with one space between them stays as it is when it is no longer than the width. A longer
-- one becomes two lines: the words `a` and behind the line break the others, so that no word is lost,
-- repeated or cut. The first line is within the width, and has no room for a space and the word behind it;
-- it is empty only where the first word is at least as long as the width.
pub two_lines_lem :
    (width : ℕ) (ws : List Text)
    → All IsWord ws
    → ((two_lines width (join 32 ws) ≡ join 32 ws) × (length (join 32 ws) ≤ width))
      ⊎ ((a : List Text) × (b : List Text) × (ws ≡ a ++ b)
          × (width < length (join 32 ws))
          × (two_lines width (join 32 ws) ≡ join 32 a ++ codes "\\N" ++ join 32 b)
          × (length (join 32 a) ≤ width)
          × IsFull width (join 32 a) b)
unfolding two_lines
two_lines_lem width ws h = elim (Bool-cases (leb (length (join 32 ws)) width)) [
  | inl short ↦ let fit : length (join 32 ws) ≤ width = ground arith in rw short (inl (refl, fit))
  | inr long ↦
      let longer : width < length (join 32 ws) = ground arith in
      let (a, b, split, out, bound, over) = first_line width ws h in
      let line : fill width [] (words (join 32 ws)) ≡ join 32 a =
        ap (fill width []) (words-join ws h) ∙ out in
      let behind =
        ap (λ l. strip (drop (length (join 32 a)) (join 32 l))) split
        ∙ second_line a b (subst (All IsWord) split h) in
      rw (long, line, behind) (inr (a, b, split, longer, refl, bound, over))
]
