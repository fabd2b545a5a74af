-- ===== src/Cards/Tests.antt =====
-- docs/video/edicion/tarjetas.py: the cards of the video.
use telematica_telemetria.Base.{
  suc, ◌+◌, ◌*◌, ◌<◌, ◌⊎◌, Bool, true, ◌&&◌, List, [], ◌∷◌, ◌++◌, map, ◌≡◌, refl, length, leb,
  replicate, take,
}
use telematica_telemetria.Base.Text.{Text, codes, join, split}
use telematica_telemetria.Cards.Draw.{
  Drawing, panel, rule, text, Card, mono, heading, code_card, table_card, line_height, src_lines,
}
use telematica_telemetria.Cards.Fit.{Stacked, Shows, texts, code_card_fits}
use telematica_telemetria.Cards.Tables.{tables}
use telematica_telemetria.Cards.Sources.{code_cards}

-- whether the texts of a card are on the panel, a line of 34 points high
abbrev on_panel : List Drawing → Bool
on_panel [] = true
on_panel (panel ∷ rows) = on_panel rows
on_panel (rule x x' y ∷ rows) = leb x' 1800 && leb y 990 && on_panel rows
on_panel (text x y s f c ∷ rows) = leb x 1800 && leb (y + 34) 990 && on_panel rows

tables_fit : map (λ (t : Card). on_panel t.drawings) tables ≡ map (λ t. true) tables
unfolding table_card
tables_fit = refl

abbrev twice : List Text
twice = codes "\t// uno\n" ∷ codes "bind(fd)" ∷ []

code_card_fits_example :
    (rows : List Drawing) × ((code_card
        (codes "a")
        (codes "A")
        twice
        mono
        (codes "bind(" ∷ [])).drawings
      ≡ heading (codes "A") ++ rows)
    × Shows (take (length rows) twice) (texts rows)
    × Stacked mono 180 rows
    × ((length rows ≡ length twice) ⊎ (980 < 180 + suc (length rows) * line_height mono))
code_card_fits_example = code_card_fits (codes "a") (codes "A") twice mono (codes "bind(" ∷ [])

-- Of the 28, 37 and 35 lines of the first three cards, in files that are long enough, 22 are drawn.
abbrev long_file : Text → Text
long_file path = join b'\n' (replicate 150 (codes "x"))

lines_drawn :
    map (λ (c : Card). length c.drawings) (code_cards long_file (λ path. []))
    ≡ 24 ∷ 24 ∷ 24 ∷ 22 ∷ 3 ∷ 3 ∷ []
unfolding code_cards code_card src_lines join split
lines_drawn = refl
