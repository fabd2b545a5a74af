-- ===== src/Operator/Display.antt =====
-- operator_client/operator_client.py: what `pretty` makes of the server's messages.
use telematica_telemetria.Base.{
  Bool, true, false, ◌&&◌, Option, none, some, List, [], ◌∷◌, ◌≡◌, refl, arith, if◌then◌else◌,
  get_elem?, leb, length, ◌==◌,
}
use telematica_telemetria.Base.Text.{Text, codes, split}
use telematica_telemetria.Operator.Pretty.{
  Printing, print_line, error_text, node_text, measure_text, alert_text, print_pairs, map_split,
  system_text, part_is, pretty_line, pretty, after,
}

-- `key=value` with one equals sign, exactly.
abbrev pub is_pair : Text → Bool
is_pair kv = length (split b'=' kv) == 2

abbrev pub all_pairs : List Text → Bool
all_pairs [] = true
all_pairs (kv ∷ rest) = is_pair kv && all_pairs rest

-- The fields that `pretty` reads of a SYSTEM line.
abbrev pub system_shape : Option Text → Bool
system_shape none = false
system_shape (some pairs) = all_pairs (split b';' pairs)

-- A line has the fields that `pretty` reads of its kind.
abbrev pub is_shaped : Text → Bool
is_shaped line =
    let f = split b'|' line in
    if part_is f 0 (codes "ERR")
    then leb 3 (length f)
    else if part_is f 0 (codes "NODE")
    then leb 7 (length f)
    else if part_is f 0 (codes "MEASURE")
    then leb 5 (length f)
    else if part_is f 0 (codes "ALERT")
    then leb 5 (length f)
    else if part_is f 0 (codes "OK") && part_is f 1 (codes "SYSTEM")
    then system_shape (get_elem? f 2)
    else true

-- whether nothing was raised
abbrev pub is_done : Printing → Bool
is_done (printed, none) = true
is_done (printed, some e) = false

error_done : (f : List Text) → is_done (print_line (error_text f)) ≡ leb 3 (length f)
unfolding print_line error_text
error_done [] = refl
error_done (a ∷ []) = refl
error_done (a ∷ b ∷ []) = refl
error_done (a ∷ b ∷ c ∷ f) = ground arith

node_done : (f : List Text) → is_done (print_line (node_text f)) ≡ leb 7 (length f)
unfolding print_line node_text
node_done [] = refl
node_done (a ∷ []) = refl
node_done (a ∷ b ∷ []) = refl
node_done (a ∷ b ∷ c ∷ []) = refl
node_done (a ∷ b ∷ c ∷ d ∷ []) = refl
node_done (a ∷ b ∷ c ∷ d ∷ e ∷ []) = refl
node_done (a ∷ b ∷ c ∷ d ∷ e ∷ g ∷ []) = refl
node_done (a ∷ b ∷ c ∷ d ∷ e ∷ g ∷ h ∷ f) = ground arith

measure_done : (f : List Text) → is_done (print_line (measure_text f)) ≡ leb 5 (length f)
unfolding print_line measure_text
measure_done [] = refl
measure_done (a ∷ []) = refl
measure_done (a ∷ b ∷ []) = refl
measure_done (a ∷ b ∷ c ∷ []) = refl
measure_done (a ∷ b ∷ c ∷ d ∷ []) = refl
measure_done (a ∷ b ∷ c ∷ d ∷ e ∷ f) = ground arith

alert_done : (f : List Text) → is_done (print_line (alert_text f)) ≡ leb 5 (length f)
unfolding print_line alert_text
alert_done [] = refl
alert_done (a ∷ []) = refl
alert_done (a ∷ b ∷ []) = refl
alert_done (a ∷ b ∷ c ∷ []) = refl
alert_done (a ∷ b ∷ c ∷ d ∷ []) = refl
alert_done (a ∷ b ∷ c ∷ d ∷ e ∷ f) = ground arith

pairs_step :
    (parts : List Text) (rest : List (List Text))
    → is_done (print_pairs (parts ∷ rest)) ≡ (length parts == 2 && is_done (print_pairs rest))
unfolding print_pairs
pairs_step [] rest = refl
pairs_step (k ∷ []) rest = refl
pairs_step (k ∷ v ∷ []) rest = ground arith
pairs_step (k ∷ v ∷ w ∷ more) rest = ground arith

pairs_done : (kvs : List Text) → is_done (print_pairs (map_split kvs)) ≡ all_pairs kvs
pairs_done [] = unfold print_pairs in refl
pairs_done (kv ∷ rest) = rw (pairs_step (split b'=' kv) (map_split rest), pairs_done rest)

system_done : (o : Option Text) → is_done (system_text o) ≡ system_shape o
unfolding system_text
system_done none = refl
system_done (some pairs) = pairs_done (split b';' pairs)

pretty_line_done : (line : Text) → is_done (pretty_line line) ≡ is_shaped line
unfolding pretty_line
pretty_line_done line =
    let f = split b'|' line in
    ground
      (arith, error_done f, node_done f, measure_done f, alert_done f, system_done (get_elem? f 2))

abbrev pub all_shaped : List Text → Bool
all_shaped [] = true
all_shaped (line ∷ lines) = is_shaped line && all_shaped lines

after_done : (p q : Printing) → is_done (after p q) ≡ (is_done p && is_done q)
after_done (printed, some e) q = refl
after_done (printed, none) (more, none) = refl
after_done (printed, none) (more, some e) = refl

-- `pretty` raises nothing exactly if every line has the fields that it reads of its kind: 3 for ERR,
-- 7 for NODE, 5 for MEASURE and ALERT, and for SYSTEM a third field of pairs with one equals sign
-- each. Any other line has all it needs.
pub pretty_done : (lines : List Text) → is_done (pretty lines) ≡ all_shaped lines
unfolding pretty
pretty_done [] = refl
pretty_done (line ∷ lines) =
    rw (after_done (pretty_line line) (pretty lines), pretty_line_done line, pretty_done lines)
