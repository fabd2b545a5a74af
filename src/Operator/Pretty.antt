-- ===== src/Operator/Pretty.antt =====
-- operator_client/operator_client.py: `pretty`, and the lines that it prints.
use telematica_telemetria.Base.{
  ◌>>=◌, ℕ, Bool, false, ◌&&◌, Option, none, some, List, [], ◌∷◌, ◌++◌, if◌then◌else◌, get_elem?,
}
use telematica_telemetria.Base.Text.{Text, codes, text_eq, split, ljust, rjust}
use telematica_telemetria.Operator.State.{Failure, index_error, value_error}

-- What is printed, and the exception that ends it.
abbrev pub Printing : Type 0
Printing = List Text × Option Failure

unfoldable pub print_line : Option Text → Printing
print_line none = ([], some index_error)
print_line (some t) = (t ∷ [], none)

-- Fields are read in order; `none` is an IndexError.
unfoldable pub error_text : List Text → Option Text
error_text f = do
  code ← get_elem? f 1
  text ← get_elem? f 2
  some (codes "  error " ++ code ++ codes ": " ++ text)

unfoldable pub node_text : List Text → Option Text
node_text f = do
  id ← get_elem? f 1
  location ← get_elem? f 2
  status ← get_elem? f 3
  age ← get_elem? f 4
  received ← get_elem? f 5
  lost ← get_elem? f 6
  some (
      codes "  "
      ++ ljust 10 id
      ++ codes " "
      ++ ljust 24 location
      ++ codes " "
      ++ ljust 9 status
      ++ codes " hace "
      ++ rjust 3 age
      ++ codes "s  recibidos="
      ++ received
      ++ codes " perdidos="
      ++ lost)

unfoldable pub measure_text : List Text → Option Text
measure_text f = do
  name ← get_elem? f 2
  value ← get_elem? f 3
  age ← get_elem? f 4
  some (
      codes "  "
      ++ ljust 8 name
      ++ codes " "
      ++ rjust 10 value
      ++ codes "   (hace "
      ++ age
      ++ codes "s)")

unfoldable pub alert_text : List Text → Option Text
alert_text f = do
  id ← get_elem? f 1
  kind ← get_elem? f 2
  value ← get_elem? f 3
  age ← get_elem? f 4
  some (
      codes "  "
      ++ ljust 10 id
      ++ codes " "
      ++ ljust 14 kind
      ++ codes " "
      ++ rjust 10 value
      ++ codes "   (hace "
      ++ age
      ++ codes "s)")

-- `k, v = kv.split("=")` takes exactly two parts
unfoldable pub print_pairs : List (List Text) → Printing
print_pairs [] = ([], none)
print_pairs ((k ∷ v ∷ []) ∷ rest) =
    let (printed, e) = print_pairs rest in
    ((codes "  " ++ ljust 14 k ++ codes " " ++ v) ∷ printed, e)
print_pairs (_ ∷ rest) = ([], some value_error)

abbrev pub map_split : List Text → List (List Text)
map_split [] = []
map_split (kv ∷ rest) = split b'=' kv ∷ map_split rest

unfoldable pub system_text : Option Text → Printing
unfolding print_pairs
system_text none = ([], some index_error)
system_text (some pairs) = print_pairs (map_split (split b';' pairs))

-- `f[i]` where the index is in range, and no text otherwise
abbrev pub part_is : List Text → ℕ → Text → Bool
part_is f i t = elim (get_elem? f i) [ none ↦ false | some s ↦ text_eq s t ]

-- The body of the loop of `pretty`.
unfoldable pub pretty_line : Text → Printing
unfolding print_line error_text node_text measure_text alert_text system_text
pretty_line line =
    let f = split b'|' line in
    if part_is f 0 (codes "ERR")
    then print_line (error_text f)
    else if part_is f 0 (codes "NODE")
    then print_line (node_text f)
    else if part_is f 0 (codes "MEASURE")
    then print_line (measure_text f)
    else if part_is f 0 (codes "ALERT")
    then print_line (alert_text f)
    else if part_is f 0 (codes "OK") && part_is f 1 (codes "SYSTEM")
    then system_text (get_elem? f 2)
    else if text_eq line (codes "END")
    then ([], none)
    else ((codes "  " ++ line) ∷ [], none)

abbrev pub after : Printing → Printing → Printing
after (printed, some e) rest = (printed, some e)
after (printed, none) rest = (printed ++ rest.0, rest.1)

-- `pretty`
unfoldable pub pretty : List Text → Printing
pretty [] = ([], none)
pretty (line ∷ lines) = after (pretty_line line) (pretty lines)
