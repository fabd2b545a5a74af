-- ===== src/Node/Simulation.antt =====
-- node/node.py: `measure`. What `random` returns is an input, one `Draw` for each call.
use telematica_telemetria.Base.{ℕ, Bool, false, Option, none, some, ◌||◌, if◌then◌else◌, zero, suc}
use telematica_telemetria.Base.Text.{Text, codes, text_eq}
use telematica_telemetria.Node.State.{FloatOps, Node}

-- `random()`, the first `uniform`, the second `uniform` (drawn for an anomaly only), and the
-- position that `choice` takes.
pub record Draw (F : Type 0) : Type 0 where
  pub chance : F
  pub drift : F
  pub spread : F
  pub pick : ℕ

-- `self.force_alert == var`
unfoldable pub is_forced : Option Text → Text → Bool
is_forced none var = false
is_forced (some v) var = text_eq v var

-- `random.choice(["OK", "OK", "OK", "WARN"])`
unfoldable pub choice : ℕ → Text
choice zero = codes "OK"
choice (suc zero) = codes "OK"
choice (suc (suc zero)) = codes "OK"
choice _ = codes "WARN"

module _ {F : Type 0} (fl : FloatOps F) where
  -- Python's `max(a, b)` and `min(a, b)` keep the first unless the second is beyond it.
  unfoldable pub py_max : F → F → F
  py_max a b = if fl.lt a b then b else a

  unfoldable pub py_min : F → F → F
  py_min a b = if fl.lt b a then b else a

  -- A variable drifts and stays within its range.
  unfoldable pub drifted : F → F → F → F → F
  unfolding py_max py_min
  drifted low high x d = py_max low (py_min high (fl.add x d))

  unfoldable pub is_anomaly : Node F → Text → Draw F → Bool
  unfolding is_forced
  is_anomaly n var d = fl.lt d.chance n.anomaly_rate || is_forced n.force_alert var

  -- `measure`; `none` is its `ValueError`.
  unfoldable pub measure : Node F → Text → Draw F → Option (Node F × Text)
  measure n var d =
      let anomaly = is_anomaly n var d in
      let temp' = drifted (fl.hundredths 1500) (fl.hundredths 3500) n.sim.temp d.drift in
      let hum' = drifted (fl.hundredths 3000) (fl.hundredths 8000) n.sim.hum d.drift in
      let energy' = drifted (fl.hundredths 30000) (fl.hundredths 450000) n.sim.energy d.drift in
      let vib' = drifted (fl.hundredths 20) (fl.hundredths 600) n.sim.vib d.drift in
      if text_eq var (codes "TEMP")
      then some (
        record n { sim = record n.sim { temp = temp' } },
        if anomaly then fl.format 1 (fl.add (fl.hundredths 4500) d.spread) else fl.format 1 temp',
      )
      else if text_eq var (codes "HUM")
      then some (
        record n { sim = record n.sim { hum = hum' } },
        if anomaly then fl.format 1 (fl.add (fl.hundredths 8800) d.spread) else fl.format 1 hum',
      )
      else if text_eq var (codes "ENERGY")
      then some (
        record n { sim = record n.sim { energy = energy' } },
        if anomaly
            then fl.format 1 (fl.add (fl.hundredths 520000) d.spread)
            else fl.format 1 energy',
      )
      else if text_eq var (codes "VIB")
      then some (
        record n { sim = record n.sim { vib = vib' } },
        if anomaly then fl.format 2 (fl.add (fl.hundredths 850) d.spread) else fl.format 2 vib',
      )
      else if text_eq var (codes "STATUS")
      then some (n, if anomaly then codes "FAULT" else choice d.pick)
      else none
