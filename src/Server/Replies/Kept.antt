-- ===== src/Server/Replies/Kept.antt =====
-- server/src: no text of the state holds a line break, over a run of the server.
use telematica_telemetria.Base.{
  IfSome, ℕ, zero, suc, ◌-◌, Bool, true, false, Option, none, some, List, [], ◌∷◌, ◌++◌, ◌≡◌, refl,
  if_either, Bool-cases, inl, inr, All, All-append, All-set, take, length, leb, if◌then◌else◌, ◌==◌,
}
use telematica_telemetria.Base.Text.{Text, OneLine, codes, text_eq, contains}
use telematica_telemetria.Base.Text.Parts.{Lacks-of_contains}
use telematica_telemetria.Server.Strings.{Doubles, first_field, tlp_split, parse_double}
use telematica_telemetria.Server.Slots.{
  Slot, Measure, cut, overwrite, set_measure, id_len, var_len, val_len, max_vars,
}
use telematica_telemetria.Server.Alerts.{put_alert}
use telematica_telemetria.Server.State.{Server, add_alert, stored_alert, count_alert}
use telematica_telemetria.Server.Udp.{Telemetry, read_fields, alarm}
use telematica_telemetria.Server.Sane.{All-at_node}
use telematica_telemetria.Server.Replies.Clean.{IsCleanMeasure, IsCleanSlot, IsCleanAlert, IsClean}

-- the fields of a line
first_field-OneLine :
    (s : Text) → OneLine s → OneLine (first_field s).0 × IfSome OneLine (first_field s).1
unfolding first_field
first_field-OneLine [] h = (tt, tt)
first_field-OneLine (c ∷ s) h =
    let behind = first_field-OneLine s h.1 in
    elim (Bool-cases (c == b'|')) [
      | inl bar ↦ rw bar (tt, h.1)
      | inr other ↦ rw other ((h.0, behind.0), behind.1)
    ]

pub tlp_split-OneLine : (n : ℕ) (s : Text) → OneLine s → All OneLine (tlp_split n s)
unfolding tlp_split
tlp_split-OneLine zero s h = tt
tlp_split-OneLine (suc n) s h =
    let (field, rest) = first_field-OneLine s h in
    (field, go (first_field s).1 (tlp_split-OneLine n) rest)
  where
    go :
        (o : Option Text)
        → ((t : Text) → OneLine t → All OneLine (tlp_split n t))
        → IfSome OneLine o
        → All OneLine (elim o [ none ↦ [] | some more ↦ tlp_split n more ])
    go none more h = tt
    go (some t) more h = more t h

pub cut-OneLine : (n : ℕ) (s : Text) → OneLine s → OneLine (cut n s)
cut-OneLine n s h = go (n - 1) s h
  where
    go : (k : ℕ) (s : Text) → OneLine s → OneLine (take k s)
    go zero s h = tt
    go (suc k) [] h = tt
    go (suc k) (c ∷ s) h = (h.0, go k s h.1)

-- the measures of a slot
cons-IfSome :
    {A : Type 0} (P : A → Type 0) (x : A) (o : Option (List A))
    → P x
    → IfSome (All P) o
    → IfSome (All P) (elim o [ none ↦ none | some rest ↦ some (x ∷ rest) ])
cons-IfSome P x none p h = tt
cons-IfSome P x (some rest) p h = (p, h)

overwrite-IsCleanMeasure :
    (now : ℕ) (var value : Text) (vars : List Measure)
    → OneLine value
    → All IsCleanMeasure vars
    → IfSome (All IsCleanMeasure) (overwrite now var value vars)
unfolding overwrite
overwrite-IsCleanMeasure now var value [] o h = tt
overwrite-IsCleanMeasure now var value (m ∷ vars) o h =
    if_either (IfSome (All IsCleanMeasure)) (text_eq m.name var)
      ((h.0.0, cut-OneLine val_len value o), h.1)
      (cons-IfSome IsCleanMeasure m _ h.0 (overwrite-IsCleanMeasure now var value vars o h.1))

pub set_measure-IsCleanSlot :
    (now : ℕ) (var value : Text) (n : Slot)
    → OneLine var
    → OneLine value
    → IsCleanSlot n
    → IsCleanSlot (set_measure now var value n)
unfolding set_measure
set_measure-IsCleanSlot now var value n ov o h =
    go (overwrite now var value n.vars) (overwrite-IsCleanMeasure now var value n.vars o h.vars)
  where
    go :
        (w : Option (List Measure))
        → IfSome (All IsCleanMeasure) w
        → IsCleanSlot (elim w [
          | some vars ↦ record n { vars = vars }
          | none ↦ if leb max_vars (length n.vars) then n else record n {
            vars =
                n.vars
                ++ record { name = cut var_len var; value = cut val_len value; at = now } ∷ [];
          }
        ])
    go (some vars) k = record { id = h.id; location = h.location; vars = k }
    go none k = if_either IsCleanSlot (leb max_vars (length n.vars)) h (record {
      id = h.id;
      location = h.location;
      vars =
          All-append IsCleanMeasure n.vars _ h.vars
            ((cut-OneLine var_len var ov, cut-OneLine val_len value o), tt);
    })

-- an alert
pub add_alert-IsClean :
    (fails : ℕ → Bool) (now : ℕ) (id type value : Text) (s : Server)
    → OneLine id
    → OneLine type
    → OneLine value
    → IsClean s
    → IsClean (add_alert fails now id type value s)
unfolding add_alert put_alert stored_alert
add_alert-IsClean fails now id type value s oi ot ov h = record {
  slots =
      All-at_node IsCleanSlot id count_alert s.slots
        (λ n k. record { id = k.id; location = k.location; vars = k.vars }) h.slots;
  cells =
      All-set IsCleanAlert s.ring.cells s.ring.head _
        (record {
          node_id = cut-OneLine id_len id oi;
          type = cut-OneLine var_len type ot;
          value = cut-OneLine val_len value ov;
        })
        h.cells;
}

guard-IfSome :
    {A : Type 0} (P : A → Type 0) (b : Bool) (a : A) → P a → IfSome P (if b then some a else none)
guard-IfSome P true a p = p
guard-IfSome P false a p = tt

or-IfSome :
    {A : Type 0} (P : A → Type 0) (o q : Option A)
    → IfSome P o
    → IfSome P q
    → IfSome P (elim o [ some a ↦ some a | none ↦ q ])
or-IfSome P none q h k = k
or-IfSome P (some a) q h k = h

-- a datagram
abbrev pub IsCleanTelemetry : Telemetry → Type 0
IsCleanTelemetry t = OneLine t.id × (OneLine t.var × OneLine t.value)

module _ {F : Type 0} (dbl : Doubles F) where
  pub read_fields-OneLine :
      (fields : List Text) → All OneLine fields → IfSome IsCleanTelemetry (read_fields dbl fields)
  unfolding read_fields
  read_fields-OneLine (word ∷ id ∷ num ∷ var ∷ value ∷ []) h =
      let fields : OneLine id × (OneLine var × OneLine value) = (h.1.0, (h.1.1.1.0, h.1.1.1.1.0)) in
      guard-IfSome IsCleanTelemetry _ _ fields
  read_fields-OneLine [] h = tt
  read_fields-OneLine (a ∷ []) h = tt
  read_fields-OneLine (a ∷ b ∷ []) h = tt
  read_fields-OneLine (a ∷ b ∷ c ∷ []) h = tt
  read_fields-OneLine (a ∷ b ∷ c ∷ d ∷ []) h = tt
  read_fields-OneLine (a ∷ b ∷ c ∷ d ∷ e ∷ f ∷ fields) h = tt

  limit-OneLine :
      (o : Option F) (b : F → Bool) (type : Text)
      → contains b'\n' type ≡ false
      → IfSome OneLine
          (elim o as (λ _. Option Text) [ none ↦ none | some v ↦ if b v then some type else none ])
  limit-OneLine none b type h = tt
  limit-OneLine (some v) b type h = guard-IfSome OneLine (b v) type (Lacks-of_contains b'\n' type h)

  pub alarm-OneLine : (var value : Text) → IfSome OneLine (alarm dbl var value)
  unfolding alarm contains
  alarm-OneLine var value =
      let P = IfSome OneLine in
      let high = λ (limit : ℕ) (type : Text) (h : contains b'\n' type ≡ false).
        limit-OneLine (parse_double dbl value) (λ v. dbl.ops.lt (dbl.ops.hundredths limit) v) type
          h in
      let low =
        limit-OneLine (parse_double dbl value) (λ v. dbl.ops.lt v dbl.minus_ten) (codes "TEMP_LOW")
          refl in
      if_either P (text_eq var (codes "TEMP"))
        (or-IfSome OneLine _ _ (high 4000 (codes "TEMP_HIGH") refl) low)
        (if_either P (text_eq var (codes "HUM")) (high 8500 (codes "HUM_HIGH") refl) (
          if_either P (text_eq var (codes "ENERGY")) (high 500000 (codes "ENERGY_HIGH") refl) (
            if_either P (text_eq var (codes "VIB")) (high 800 (codes "VIB_HIGH") refl) (
              if_either P (text_eq var (codes "STATUS"))
                (guard-IfSome OneLine (text_eq value (codes "FAULT")) (codes "STATUS_FAULT")
                  (Lacks-of_contains b'\n' (codes "STATUS_FAULT") refl))
                tt))))
