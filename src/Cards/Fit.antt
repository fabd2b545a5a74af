-- ===== src/Cards/Fit.antt =====
-- docs/video/edicion/tarjetas.py: where `code_card` draws the lines.
use telematica_telemetria.Base.{
  ℕ, zero, suc, ◌+◌, ◌*◌, ◌≤◌, ◌<◌, List, [], ◌∷◌, ◌++◌, ◌≡◌, ◌⊎◌, inl, inr, refl, arith, length,
  take, length-take-le, All, if◌then◌else◌, ap, sym, ◌∙◌, Bool-cases, ◌==◌, false,
}
use telematica_telemetria.Base.Text.{Text, codes, starts_with}
use mathlib.Core.Path.{subst}
use mathlib.Core.List.{reverse, reverse_aux, reverse-append, reverse-reverse}
use telematica_telemetria.Cards.Draw.{
  Font, mono, mono_s, ui, uib, Drawing, panel, rule, text, heading, line_height, line_limit,
  skip_breaks, spread_tabs, shown_text, code_lines, code_card,
}

-- Texts of at most 110 characters, one under the other from the height `y` on, each with the height of
-- a line above 980.
abbrev pub Stacked : Font → ℕ → List Drawing → Type 0
Stacked font y [] = Unit
Stacked font y (panel ∷ rows) = ⊥
Stacked font y (rule x x' y' ∷ rows) = ⊥
Stacked font y (text x y' s f c ∷ rows) =
    (y' ≡ y)
    × (y + line_height font ≤ 980)
    × (length s ≤ 110)
    × Stacked font (y + line_height font) rows

code_lines-Stacked :
    (font : Font) (highlight : List Text) (n y : ℕ) (lines : List Text)
    → y + n * line_height font ≤ 980
    → Stacked font y (code_lines font highlight y (take n lines))
unfolding code_lines shown_text
code_lines-Stacked font highlight zero y lines h = tt
code_lines-Stacked font highlight (suc n) y [] h = tt
code_lines-Stacked font highlight (suc n) y (ln ∷ lines) h = (
  refl,
  omega arith,
  length-take-le 110 _,
  code_lines-Stacked font highlight n (y + line_height font) lines (omega arith),
)

-- the texts of drawings, in their order
abbrev pub texts : List Drawing → List Text
texts [] = []
texts (panel ∷ rows) = texts rows
texts (rule x x' y ∷ rows) = texts rows
texts (text x y s f c ∷ rows) = s ∷ texts rows

-- a tab spread over four columns
abbrev tabbed : Text → Text
tabbed [] = []
tabbed (c ∷ s) = if c == b'\t' then codes "    " ++ tabbed s else c ∷ tabbed s

abbrev IsBreak : ℕ → Type 0
IsBreak c = c ≡ b'\n'

-- A line without the line breaks at its end, its tabs spread, and its first 110 characters.
abbrev pub IsShown : Text → Text → Type 0
IsShown ln s =
    (body : Text) × (breaks : Text) × (ln ≡ body ++ breaks)
    × All IsBreak breaks
    × (starts_with (codes "\n") (reverse body) ≡ false)
    × (s ≡ take 110 (tabbed body))

-- each text is what is shown of the line in its place
abbrev pub Shows : List Text → List Text → Type 0
Shows [] ss = ss ≡ []
Shows (ln ∷ lines) [] = ⊥
Shows (ln ∷ lines) (s ∷ ss) = IsShown ln s × Shows lines ss

spread_tabs-tabbed : (s : Text) → spread_tabs s ≡ tabbed s
unfolding spread_tabs
spread_tabs-tabbed [] = refl
spread_tabs-tabbed (c ∷ s) = ground (arith, spread_tabs-tabbed s)

All-turned : (s t : Text) → All IsBreak s → All IsBreak t → All IsBreak (reverse_aux s t)
All-turned [] t h g = g
All-turned (c ∷ s) t h g = All-turned s (c ∷ t) h.1 (h.0, g)

skipped :
    (s : Text)
    → (breaks : Text) × (s ≡ breaks ++ skip_breaks s)
      × All IsBreak breaks
      × (starts_with (codes "\n") (skip_breaks s) ≡ false)
unfolding skip_breaks starts_with
skipped [] = ([], refl, tt, refl)
skipped (c ∷ s) = elim (Bool-cases (c == b'\n')) [
  | inl br ↦
      let (breaks, same, all, rest) = skipped s in
      let is_br : IsBreak c = ground arith in
      rw (br, skip_breaks) (c ∷ breaks, ap (λ t. c ∷ t) same, (is_br, all), rest)
  | inr other ↦ rw (other, skip_breaks) ([], refl, tt, ground arith)
]

shown_text-IsShown : (ln : Text) → IsShown ln (shown_text ln)
unfolding shown_text
shown_text-IsShown ln =
    let (breaks, same, all, rest) = skipped (reverse ln) in
    let left = skip_breaks (reverse ln) in
    (
      reverse left,
      reverse breaks,
      sym (reverse-reverse ln) ∙ ap reverse same ∙ reverse-append breaks left,
      All-turned breaks [] all tt,
      ap (starts_with (codes "\n")) (reverse-reverse left) ∙ rest,
      ap (take 110) (spread_tabs-tabbed (reverse left)),
    )

code_lines-Shows :
    (font : Font) (highlight : List Text) (y : ℕ) (lines : List Text)
    → Shows lines (texts (code_lines font highlight y lines))
unfolding code_lines
code_lines-Shows font highlight y [] = refl
code_lines-Shows font highlight y (ln ∷ lines) =
    (shown_text-IsShown ln, code_lines-Shows font highlight (y + line_height font) lines)

length-code_lines :
    (font : Font) (highlight : List Text) (y : ℕ) (lines : List Text)
    → length (code_lines font highlight y lines) ≡ length lines
unfolding code_lines
length-code_lines font highlight y [] = refl
length-code_lines font highlight y (ln ∷ lines) =
    ap suc (length-code_lines font highlight (y + line_height font) lines)

take_again : (n : ℕ) (lines : List Text) → take (length (take n lines)) lines ≡ take n lines
take_again zero lines = refl
take_again (suc n) [] = refl
take_again (suc n) (ln ∷ lines) = ap (λ t. ln ∷ t) (take_again n lines)

length_taken :
    (n : ℕ) (lines : List Text)
    → (length (take n lines) ≡ n) ⊎ (length (take n lines) ≡ length lines)
length_taken zero lines = inl refl
length_taken (suc n) [] = inr refl
length_taken (suc n) (ln ∷ lines) = ground (arith, length_taken n lines)

-- as many lines as there is room for
limit-fits : (font : Font) → 180 + line_limit font * line_height font ≤ 980
unfolding line_limit line_height
limit-fits mono = omega arith
limit-fits mono_s = omega arith
limit-fits ui = omega arith
limit-fits uib = omega arith

limit-full : (font : Font) → 980 < 180 + suc (line_limit font) * line_height font
unfolding line_limit line_height
limit-full mono = omega arith
limit-full mono_s = omega arith
limit-full ui = omega arith
limit-full uib = omega arith

-- Behind the panel and the title, `code_card` draws the first lines in their order and nothing else: of
-- each its text without the line breaks at its end, with four spaces for a tab, and cut to 110 characters;
-- one under the other, from the height 180 on, each with the whole height of its line above 980. It
-- draws all lines, or no further line would have room.
pub code_card_fits :
    (name title : Text) (lines : List Text) (font : Font) (highlight : List Text)
    → (rows : List Drawing) × ((code_card name title lines font highlight).drawings
        ≡ heading title ++ rows)
      × Shows (take (length rows) lines) (texts rows)
      × Stacked font 180 rows
      × ((length rows ≡ length lines) ⊎ (980 < 180 + suc (length rows) * line_height font))
unfolding code_card
code_card_fits name title lines font highlight =
    let n = line_limit font in
    let drawn = take n lines in
    let rows = code_lines font highlight 180 drawn in
    let count = length-code_lines font highlight 180 drawn in
    (
      rows,
      refl,
      subst (λ ls. Shows ls (texts rows)) (sym (ap (λ k. take k lines) count ∙ take_again n lines))
          (code_lines-Shows font highlight 180 drawn),
      code_lines-Stacked font highlight n 180 lines (limit-fits font),
      elim (length_taken n lines) [
        | inl e ↦ inr (rw (count ∙ e) (limit-full font))
        | inr e ↦ inl (count ∙ e)
      ],
    )
