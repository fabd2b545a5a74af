-- ===== src/Node/Measure.antt =====
-- node/node.py: what `measure` changes, and the names that it knows.
use telematica_telemetria.Base.{none, some, ◌≡◌, ◌≢◌, arith, Option-cases, inl, inr}
use telematica_telemetria.Base.Text.{Text, text_eq}
use telematica_telemetria.Node.State.{FloatOps, Sim, Node}
use telematica_telemetria.Node.Simulation.{Draw, measure}
use telematica_telemetria.Node.Induction.{IsVar}

module _ {F : Type 0} (fl : FloatOps F) where
  pub measure_frame :
      (n n' : Node F) (var value : Text) (d : Draw F)
      → measure fl n var d ≡ some (n', value)
      → n' ≡ record n { sim = n'.sim }
  unfolding measure
  measure_frame n n' var value d e = ground arith

  pub measure-ne-none :
      (n : Node F) (var : Text) (d : Draw F) → IsVar var → measure fl n var d ≢ none
  unfolding measure text_eq
  measure-ne-none n var d (inl e) = rw e (ground arith)
  measure-ne-none n var d (inr (inl e)) = rw e (ground arith)
  measure-ne-none n var d (inr (inr (inl e))) = rw e (ground arith)
  measure-ne-none n var d (inr (inr (inr (inl e)))) = rw e (ground arith)
  measure-ne-none n var d (inr (inr (inr (inr e)))) = rw e (ground arith)

  -- the result of a measurement, by its parts
  pub measure_total :
      (n : Node F) (var : Text) (d : Draw F)
      → IsVar var
      → (s : Sim F) × (value : Text) × (measure fl n var d ≡ some (record n { sim = s }, value))
  measure_total n var d v = elim (Option-cases (measure fl n var d)) [
    | inl e ↦ absurd (measure-ne-none n var d v e)
    | inr ((n', value), e) ↦ (n'.sim, value, rw (← measure_frame n n' var value d e) e)
  ]
