-- ===== src/Montage/Lines.antt =====
-- docs/video/edicion/montaje.py: `two_lines`, and `esc`.
use telematica_telemetria.Base.{
  ℕ, zero, suc, ◌+◌, List, [], ◌∷◌, ◌++◌, if◌then◌else◌, leb, ltb, ◌==◌, length,
}
use telematica_telemetria.Base.Text.{Text, codes, is_space, strip}

-- `s[n:]`
unfoldable pub drop : ℕ → Text → Text
drop zero s = s
drop (suc n) [] = []
drop (suc n) (c ∷ s) = drop n s

-- a word, unless it is empty
abbrev pub add_word : Text → List Text → List Text
add_word [] rest = rest
add_word (c ∷ w) rest = (c ∷ w) ∷ rest

-- The words of `s` behind the characters `w` of a word that is being read.
unfoldable pub words_from : Text → Text → List Text
words_from w [] = add_word w []
words_from w (c ∷ s) =
    let apart = add_word w (words_from [] s) in
    let onward = words_from (w ++ c ∷ []) s in if is_space c then apart else onward

-- `s.split()`
unfoldable pub words : Text → List Text
unfolding words_from
words s = words_from [] s

-- the loop of `two_lines`: the first line takes words as long as they fit
unfoldable pub fill : ℕ → Text → List Text → Text
fill width l1 [] = l1
fill width [] (w ∷ rest) =
    let onward = fill width w rest in if ltb width (length w + 1) then [] else onward
fill width (c ∷ l1) (w ∷ rest) =
    let line = (c ∷ l1) ++ 32 ∷ w in
    let onward = fill width line rest in
    if ltb width (length (c ∷ l1) + length w + 1) then c ∷ l1 else onward

-- `two_lines`, with `\N` between the lines
unfoldable pub two_lines : ℕ → Text → Text
unfolding words fill drop
two_lines width t =
    let l1 = fill width [] (words t) in
    if leb (length t) width then t else l1 ++ codes "\\N" ++ strip (drop (length l1) t)

-- `s.replace(c, "\\" + c)` for one character `c`
unfoldable pub mark : ℕ → Text → Text
mark c [] = []
mark c (a ∷ s) = if a == c then b'\\' ∷ a ∷ mark c s else a ∷ mark c s

-- `esc`, for drawtext: the four replacements, one after the other
unfoldable pub esc : Text → Text
unfolding mark
esc s = mark b'%' (mark b'\'' (mark b':' (mark b'\\' s)))
