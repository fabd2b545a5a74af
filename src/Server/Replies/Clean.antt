-- ===== src/Server/Replies/Clean.antt =====
-- server/src: a state whose texts hold no line break, and the rows that the replies take from it.
use telematica_telemetria.Base.{
  ℕ, zero, suc, ◌+◌, ◌-◌, ◌%◌, true, false, some, List, [], ◌∷◌, ◌++◌, ◌≡◌, ◌≢◌, refl, arith, leb,
  if_either, Bool-cases, Option-cases, inl, inr, All, All-append, get_elem?,
}
use telematica_telemetria.Base.Text.{Text, OneLine, codes, show_nat, text_eq, is_digit}
use telematica_telemetria.Base.Text.Numbers.{All-show_nat}
use telematica_telemetria.Server.Slots.{Slot, Measure, is_node, find_node}
use telematica_telemetria.Server.Alerts.{Alert, Ring, copy_alerts, snapshot}
use telematica_telemetria.Server.State.{Server}
use telematica_telemetria.Server.Reply.{
  show_age, show_state, bars, row, node_row, node_rows, measure_rows, alert_rows, pair, pairs,
}
use telematica_telemetria.Operator.Prefix.{IsSolid}
use telematica_telemetria.Server.Replies.{IsBody, nil-IsBody, cons-IsBody}

abbrev pub IsCleanMeasure : Measure → Type 0
IsCleanMeasure m = OneLine m.name × OneLine m.value

pub record IsCleanSlot (n : Slot) : Type 0 where
  pub id : OneLine n.id
  pub location : OneLine n.location
  pub vars : All IsCleanMeasure n.vars

pub record IsCleanAlert (a : Alert) : Type 0 where
  pub node_id : OneLine a.node_id
  pub type : OneLine a.type
  pub value : OneLine a.value

-- No text of the state holds a line break.
pub record IsClean (s : Server) : Type 0 where
  pub slots : All IsCleanSlot s.slots
  pub cells : All IsCleanAlert s.ring.cells

pub show_nat-OneLine : (n : ℕ) → OneLine (show_nat n)
show_nat-OneLine n = go (show_nat n) (All-show_nat n)
  where
    go : (s : Text) → All (λ c. is_digit c ≡ true) s → OneLine s
    go [] h = tt
    go (c ∷ s) h = (ground arith, go s h.1)

pub show_age-OneLine : (now at : ℕ) → OneLine (show_age now at)
unfolding show_age
show_age-OneLine now at =
    if_either OneLine (leb at now) (show_nat-OneLine (now - at))
      (ground arith, show_nat-OneLine (at - now))

pub show_state-OneLine : (n : Slot) → OneLine (show_state n)
show_state-OneLine n = if_either OneLine n.active (ground arith) (ground arith)

pub bars-OneLine : (fields : List Text) → All OneLine fields → OneLine (bars fields)
bars-OneLine [] h = tt
bars-OneLine (f ∷ fields) h =
    (ground arith, All-append (λ c. c ≢ b'\n') f (bars fields) h.0 (bars-OneLine fields h.1))

pub pairs-OneLine : (ps : List Text) → All OneLine ps → OneLine (pairs ps)
pairs-OneLine [] h = tt
pairs-OneLine (p ∷ []) h = h.0
pairs-OneLine (p ∷ q ∷ rest) h =
    All-append (λ c. c ≢ b'\n') p (b';' ∷ pairs (q ∷ rest)) h.0
      (ground arith, pairs-OneLine (q ∷ rest) h.1)

pub pair-OneLine : (name : Text) (n : Text) → OneLine name → OneLine n → OneLine (pair name n)
pair-OneLine name n h k = All-append (λ c. c ≢ b'\n') name (b'=' ∷ n) h (ground arith, k)

pub line_of-OneLine :
    (word : Text) (fields : List Text)
    → OneLine word
    → All OneLine fields
    → OneLine (word ++ bars fields)
line_of-OneLine word fields h k =
    All-append (λ c. c ≢ b'\n') word (bars fields) h (bars-OneLine fields k)

pub find_node-IsCleanSlot :
    (id : Text) (slots : List Slot) (n : Slot)
    → All IsCleanSlot slots
    → find_node id slots ≡ some n
    → IsCleanSlot n
unfolding find_node is_node
find_node-IsCleanSlot id [] n h e = cc
find_node-IsCleanSlot id (m ∷ slots) n h e = elim (Bool-cases (is_node id m)) [
  | inl hit ↦ let same : m ≡ n = ground arith in rw (← same) h.0
  | inr other ↦ find_node-IsCleanSlot id slots n h.1 (ground arith)
]

-- a row of the body
row-IsBody :
    (word : Text) (fields rows : List Text)
    → All IsSolid word
    → OneLine word
    → ((t : Text) → text_eq (word ++ t) (codes "END") ≡ false)
    → All OneLine fields
    → IsBody rows
    → IsBody (row word fields ∷ rows)
row-IsBody word fields rows solid ol h k =
    cons-IsBody word (bars fields) rows solid (line_of-OneLine word fields ol k) h

pub node_rows-IsBody :
    (now : ℕ) (slots : List Slot) → All IsCleanSlot slots → IsBody (node_rows now slots)
unfolding node_rows node_row text_eq
node_rows-IsBody now [] h = nil-IsBody
node_rows-IsBody now (n ∷ slots) h =
    let rest = node_rows-IsBody now slots h.1 in
    if_either (λ rows. IsBody rows) n.used
      (row-IsBody (codes "NODE")
        (n.id
          ∷ n.location
          ∷ show_state n
          ∷ show_age now n.last_seen
          ∷ show_nat n.counts.received
          ∷ show_nat n.counts.lost
          ∷ [])
        (node_rows now slots) (omega arith) (ground arith) (λ t. refl)
        (
          h.0.id,
          (
            h.0.location,
            (
              show_state-OneLine n,
              (
                show_age-OneLine now n.last_seen,
                (show_nat-OneLine n.counts.received, (show_nat-OneLine n.counts.lost, tt)),
              ),
            ),
          ),
        )
        rest)
      rest

pub measure_rows-IsBody :
    (now : ℕ) (id : Text) (vars : List Measure)
    → OneLine id
    → All IsCleanMeasure vars
    → IsBody (measure_rows now id vars)
unfolding measure_rows text_eq
measure_rows-IsBody now id [] h k = nil-IsBody
measure_rows-IsBody now id (m ∷ vars) h k =
    row-IsBody (codes "MEASURE") (id ∷ m.name ∷ m.value ∷ show_age now m.at ∷ [])
      (measure_rows now id vars) (omega arith) (ground arith) (λ t. refl)
      (h, (k.0.0, (k.0.1, (show_age-OneLine now m.at, tt)))) (measure_rows-IsBody now id vars h k.1)

pub alert_rows-IsBody :
    (now : ℕ) (alerts : List Alert) → All IsCleanAlert alerts → IsBody (alert_rows now alerts)
unfolding alert_rows text_eq
alert_rows-IsBody now [] h = nil-IsBody
alert_rows-IsBody now (a ∷ alerts) h =
    row-IsBody (codes "ALERT") (a.node_id ∷ a.type ∷ a.value ∷ show_age now a.at ∷ [])
      (alert_rows now alerts) (omega arith) (ground arith) (λ t. refl)
      (h.0.node_id, (h.0.type, (h.0.value, (show_age-OneLine now a.at, tt))))
      (alert_rows-IsBody now alerts h.1)

get_elem?-IsCleanAlert :
    (cells : List Alert) (i : ℕ) (a : Alert)
    → All IsCleanAlert cells
    → get_elem? cells i ≡ some a
    → IsCleanAlert a
get_elem?-IsCleanAlert [] i a h e = cc
get_elem?-IsCleanAlert (b ∷ cells) zero a h e = let same : b ≡ a = cc in rw (← same) h.0
get_elem?-IsCleanAlert (b ∷ cells) (suc i) a h e = get_elem?-IsCleanAlert cells i a h.1 e

copy-IsCleanAlert :
    (r : Ring) (k rounds max : ℕ)
    → All IsCleanAlert r.cells
    → All IsCleanAlert (copy_alerts r k rounds max)
unfolding copy_alerts
copy-IsCleanAlert r k zero max h = tt
copy-IsCleanAlert r k (suc rounds) zero h = tt
copy-IsCleanAlert r k (suc rounds) (suc max) h =
    let rest = copy-IsCleanAlert r (k + 1) rounds max h in
    let i = (r.head + 256 - k) % 256 in
    elim (Option-cases (get_elem? r.cells i)) [
      | inl e ↦ rw (copy_alerts, e) rest
      | inr (a, e) ↦ rw (copy_alerts, e) (get_elem?-IsCleanAlert r.cells i a h e, rest)
    ]

pub snapshot-IsCleanAlert :
    (max : ℕ) (r : Ring) → All IsCleanAlert r.cells → All IsCleanAlert (snapshot max r)
unfolding snapshot
snapshot-IsCleanAlert max r h = copy-IsCleanAlert r 1 r.count max h
