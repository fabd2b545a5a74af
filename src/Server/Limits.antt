-- ===== src/Server/Limits.antt =====
-- server/src/protocol.c: the limits of `check_thresholds` as a table.
use telematica_telemetria.Base.{
  ℕ, Bool, true, false, ◌&&◌, Option, none, some, List, [], ◌∷◌, ◌≡◌, refl, Bool-cases,
  Option-cases, inl, inr, if◌then◌else◌, sym,
}
use telematica_telemetria.Base.Text.{Text, codes, text_eq}
use telematica_telemetria.Base.Text.Parts.{text_eq→eq}
use mathlib.Core.Path.{subst}
use telematica_telemetria.Server.Strings.{Doubles, parse_double}
use telematica_telemetria.Server.Udp.{alarm}

-- Out of the limits is a number above so many hundredths, a number below -10, or a word.
pub data Limit : Type 0 where
  above : ℕ → Limit
  frost : Limit
  word : Text → Limit

-- a variable, its limit, and the type of the alert
abbrev pub limits : List (Text × Limit × Text)
limits =
    (codes "TEMP", above 4000, codes "TEMP_HIGH")
    ∷ (codes "TEMP", frost, codes "TEMP_LOW")
    ∷ (codes "HUM", above 8500, codes "HUM_HIGH")
    ∷ (codes "ENERGY", above 500000, codes "ENERGY_HIGH")
    ∷ (codes "VIB", above 800, codes "VIB_HIGH")
    ∷ (codes "STATUS", word (codes "FAULT"), codes "STATUS_FAULT")
    ∷ []

module _ {F : Type 0} (dbl : Doubles F) where
  abbrev number_is : Option F → (F → Bool) → Bool
  number_is none test = false
  number_is (some v) test = test v

  abbrev pub is_out : Limit → Text → Bool
  is_out (above limit) value =
      number_is (parse_double dbl value) (λ v. dbl.ops.lt (dbl.ops.hundredths limit) v)
  is_out frost value = number_is (parse_double dbl value) (λ v. dbl.ops.lt v dbl.minus_ten)
  is_out (word w) value = text_eq value w

  -- the first line of the table that is for the variable and that the value is out of
  abbrev pub first_out : List (Text × Limit × Text) → Text → Text → Option Text
  first_out [] var value = none
  first_out ((name, limit, type) ∷ rows) var value =
      if text_eq var name && is_out limit value then some type else first_out rows var value

  alarm-known :
      (name var value : Text)
      → text_eq var name ≡ true
      → alarm dbl name value ≡ first_out limits name value
      → alarm dbl var value ≡ first_out limits var value
  alarm-known name var value e h =
      subst (λ t. alarm dbl t value ≡ first_out limits t value) (sym (text_eq→eq var name e)) h

  alarm_temp :
      (value : Text) → alarm dbl (codes "TEMP") value ≡ first_out limits (codes "TEMP") value
  unfolding alarm text_eq
  alarm_temp value = elim (Option-cases (parse_double dbl value)) [
    | inl e ↦ rw e (rw e refl)
    | inr (v, e) ↦ elim (Bool-cases (dbl.ops.lt (dbl.ops.hundredths 4000) v)) [
      | inl hot ↦ rw e (rw hot refl)
      | inr mild ↦ rw e (rw mild (rw e refl))
    ]
  ]

  alarm_hum : (value : Text) → alarm dbl (codes "HUM") value ≡ first_out limits (codes "HUM") value
  unfolding alarm text_eq
  alarm_hum value = elim (Option-cases (parse_double dbl value)) [
    | inl e ↦ rw e refl
    | inr (v, e) ↦ rw e refl
  ]

  alarm_energy :
      (value : Text) → alarm dbl (codes "ENERGY") value ≡ first_out limits (codes "ENERGY") value
  unfolding alarm text_eq
  alarm_energy value = elim (Option-cases (parse_double dbl value)) [
    | inl e ↦ rw e refl
    | inr (v, e) ↦ rw e refl
  ]

  alarm_vib : (value : Text) → alarm dbl (codes "VIB") value ≡ first_out limits (codes "VIB") value
  unfolding alarm text_eq
  alarm_vib value = elim (Option-cases (parse_double dbl value)) [
    | inl e ↦ rw e refl
    | inr (v, e) ↦ rw e refl
  ]

  alarm_status :
      (value : Text) → alarm dbl (codes "STATUS") value ≡ first_out limits (codes "STATUS") value
  unfolding alarm text_eq
  alarm_status value = refl

  -- a variable that the table does not have
  alarm_other :
      (var value : Text)
      → text_eq var (codes "TEMP") ≡ false
      → text_eq var (codes "HUM") ≡ false
      → text_eq var (codes "ENERGY") ≡ false
      → text_eq var (codes "VIB") ≡ false
      → text_eq var (codes "STATUS") ≡ false
      → alarm dbl var value ≡ first_out limits var value
  unfolding alarm
  alarm_other var value t h e v s = rw (t, h, e, v, s) refl

  pub alarm-limits : (var value : Text) → alarm dbl var value ≡ first_out limits var value
  alarm-limits var value = elim (Bool-cases (text_eq var (codes "TEMP"))) [
    | inl e ↦ alarm-known (codes "TEMP") var value e (alarm_temp value)
    | inr t ↦ elim (Bool-cases (text_eq var (codes "HUM"))) [
      | inl e ↦ alarm-known (codes "HUM") var value e (alarm_hum value)
      | inr h ↦ elim (Bool-cases (text_eq var (codes "ENERGY"))) [
        | inl e ↦ alarm-known (codes "ENERGY") var value e (alarm_energy value)
        | inr n ↦ elim (Bool-cases (text_eq var (codes "VIB"))) [
          | inl e ↦ alarm-known (codes "VIB") var value e (alarm_vib value)
          | inr v ↦ elim (Bool-cases (text_eq var (codes "STATUS"))) [
            | inl e ↦ alarm-known (codes "STATUS") var value e (alarm_status value)
            | inr s ↦ alarm_other var value t h n v s
          ]
        ]
      ]
    ]
  ]
