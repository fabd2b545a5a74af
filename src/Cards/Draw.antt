-- ===== src/Cards/Draw.antt =====
-- docs/video/edicion/tarjetas.py: `code_card`, `src_lines` and `table_card`. A card is the list of what is
-- drawn on the canvas, in order, and the file it is saved in; what PIL does with it is not modelled.
use telematica_telemetria.Base.{
  ℕ, zero, suc, ◌+◌, ◌-◌, ◌/◌, Bool, false, ◌||◌, List, [], ◌∷◌, ◌++◌, if◌then◌else◌, take, ◌==◌,
}
use telematica_telemetria.Base.Text.{Text, codes, starts_with, lstrip, split}
use mathlib.Core.List.{reverse}

-- the fonts, with the sizes they are loaded in
pub data Font : Type 0 where
  mono : Font
  mono_s : Font
  ui : Font
  uib : Font

unfoldable pub size : Font → ℕ
size mono = 30
size mono_s = 26
size ui = 34
size uib = 40

-- `FG`, `DIM`, `ACC` and `KW`
pub data Color : Type 0 where
  fg : Color
  dim : Color
  acc : Color
  kw : Color

unfoldable pub rgb : Color → ℕ × (ℕ × ℕ)
rgb fg = (225, (225, 225))
rgb dim = (150, (150, 150))
rgb acc = (120, (190, 255))
rgb kw = (255, (190, 110))

-- One drawing on the canvas: the panel, a line across it from x to x' at the height y, or a text.
pub data Drawing : Type 0 where
  panel : Drawing
  rule : (x x' y : ℕ) → Drawing
  text : (x y : ℕ) → Text → Font → Color → Drawing

pub record Card : Type 0 where
  pub name : Text
  pub drawings : List Drawing

-- the name of the file
unfoldable pub file_name : Card → Text
file_name card = codes "ov-" ++ card.name ++ codes ".png"

-- the panel and the title of every card
unfoldable pub heading : Text → List Drawing
heading title = panel ∷ text 160 112 title uib acc ∷ []

-- `h in ln`
unfoldable pub occurs : Text → Text → Bool
unfolding starts_with
occurs h [] = starts_with h []
occurs h (c ∷ s) = starts_with h (c ∷ s) || occurs h s

-- `any(h in ln for h in highlight)`
unfoldable pub is_highlit : List Text → Text → Bool
unfolding occurs
is_highlit [] ln = false
is_highlit (h ∷ highlight) ln = occurs h ln || is_highlit highlight ln

-- `ln.lstrip().startswith(("/*", "*", "//", "#"))`
unfoldable pub is_comment : Text → Bool
unfolding starts_with lstrip
is_comment ln =
    starts_with (codes "/*") (lstrip ln)
    || (starts_with (codes "*") (lstrip ln)
        || (starts_with (codes "//") (lstrip ln) || starts_with (codes "#") (lstrip ln)))

unfoldable pub color_of : List Text → Text → Color
unfolding is_highlit is_comment
color_of highlight ln = if is_comment ln then dim else if is_highlit highlight ln then kw else fg

-- `s.rstrip("\n")`, on the text turned round
unfoldable pub skip_breaks : Text → Text
skip_breaks [] = []
skip_breaks (c ∷ s) = let rest = skip_breaks s in if c == b'\n' then rest else c ∷ s

-- `s.replace("\t", "    ")`
unfoldable pub spread_tabs : Text → Text
spread_tabs [] = []
spread_tabs (c ∷ s) =
    let rest = spread_tabs s in if c == b'\t' then 32 ∷ 32 ∷ 32 ∷ 32 ∷ rest else c ∷ rest

-- what is drawn of a line
unfoldable pub shown_text : Text → Text
unfolding skip_breaks spread_tabs
shown_text ln = take 110 (spread_tabs (reverse (skip_breaks (reverse ln))))

-- the height of a line, `lh`, and how many lines are drawn
unfoldable pub line_height : Font → ℕ
unfolding size
line_height font = size font + 10

unfoldable pub line_limit : Font → ℕ
unfolding line_height
line_limit font = (980 - 180) / line_height font

-- the loop of `code_card`, from the height `y` on
unfoldable pub code_lines : Font → List Text → ℕ → List Text → List Drawing
unfolding color_of shown_text line_height
code_lines font highlight y [] = []
code_lines font highlight y (ln ∷ lines) =
    text 160 y (shown_text ln) font (color_of highlight ln)
    ∷ code_lines font highlight (y + line_height font) lines

-- `code_card`
unfoldable pub code_card : Text → Text → List Text → Font → List Text → Card
unfolding heading line_limit code_lines
code_card name title lines font highlight = record {
  name = name;
  drawings = heading title ++ code_lines font highlight 180 (take (line_limit font) lines);
}

-- `lines[n:]`
unfoldable pub drop_lines : ℕ → List Text → List Text
drop_lines zero lines = lines
drop_lines (suc n) [] = []
drop_lines (suc n) (l ∷ lines) = drop_lines n lines

-- `src_lines`, on the text of the file; the first line has the number 1
unfoldable pub src_lines : Text → ℕ → ℕ → List Text
unfolding drop_lines
src_lines source start end = take (end - (start - 1)) (drop_lines (start - 1) (split b'\n' source))

-- one row of a table, cell by cell as long as there are widths
unfoldable pub cells : Font → Color → ℕ → ℕ → List Text → List ℕ → List Drawing
cells font color y x [] widths = []
cells font color y x (cell ∷ row) [] = []
cells font color y x (cell ∷ row) (w ∷ widths) =
    text x y cell font color ∷ cells font color y (x + w) row widths

unfoldable pub table_rows : ℕ → List (List Text) → List ℕ → List Drawing
unfolding cells
table_rows y [] widths = []
table_rows y (row ∷ rows) widths = cells ui fg y 160 row widths ++ table_rows (y + 52) rows widths

-- `table_card`
unfoldable pub table_card : Text → Text → List Text → List (List Text) → List ℕ → Card
unfolding heading cells table_rows
table_card name title header rows colw = record {
  name = name;
  drawings =
      heading title
      ++ cells uib dim 190 160 header colw
      ++ rule 160 1760 (190 + 60) ∷ table_rows (190 + 60 + 14) rows colw;
}
