-- ===== src/Node/Main.antt =====
-- node/node.py: `main`, over the command line and the environment. argparse's parser is not modelled: `Args`
-- is what it reads. `float` of a text is a parameter; `none` is its ValueError.
use telematica_telemetria.Base.{
  Bool, false, ◌||◌, Option, none, some, ◌>>=◌, List, [], ◌∷◌, ◌≡◌, refl, ℕ, if◌then◌else◌,
}
use mathlib.Core.Path.{subst}
use telematica_telemetria.Base.Text.{Text, codes, text_eq}
use telematica_telemetria.Node.State.{FloatOps, World, Node, Exit, init, vars}
use telematica_telemetria.Node.Link.{Farewell}
use telematica_telemetria.Node.Run.{Cycle, run}
use telematica_telemetria.Node.Session.{Conforms, run-Conforms}

-- The options of the command line that reach the node's messages, and the one that may end the program.
pub record Args : Type 0 where
  pub id : Option Text
  pub location : Option Text
  pub interval : Option Text
  pub anomaly_rate : Option Text
  pub force_alert : Option Text

-- The variables of the environment of the same meaning.
pub record Environment : Type 0 where
  pub node_id : Option Text
  pub node_location : Option Text
  pub interval : Option Text
  pub anomaly_rate : Option Text
  pub force_alert : Option Text

-- `os.getenv(name, default)`, and an option with its default
unfoldable pub given : Option Text → Text → Text
given none default = default
given (some t) default = t

-- `os.getenv("FORCE_ALERT") or None`
unfoldable pub unless_empty : Option Text → Option Text
unless_empty none = none
unless_empty (some t) = if text_eq t [] then none else some t

unfoldable pub is_one_of : Text → List Text → Bool
is_one_of t [] = false
is_one_of t (v ∷ rest) = text_eq t v || is_one_of t rest

-- `--force-alert`, whose choices are checked, and its default, which is not; `none` is argparse's exit
unfoldable pub forced_variable : Option Text → Option Text → Option (Option Text)
unfolding unless_empty is_one_of
forced_variable none env = some (unless_empty env)
forced_variable (some t) env = if is_one_of t vars then some (some t) else none

bind_some {ℓ κ} :
    {A : Type ℓ} {B : Type κ} (o : Option A) (k : A → Option B) {b : B}
    → (o >>= k) ≡ some b
    → (a : A) × ((o ≡ some a) × (k a ≡ some b))
bind_some none k h = absurd (cc)
bind_some (some a) k h = (a, (refl, h))

module _ {F : Type 0} (fl : FloatOps F) (float : Text → Option F) where
  -- a number from the command line, or from the environment, which is read in any case
  unfoldable pub number : Option Text → Option Text → Text → Option F
  unfolding given
  number arg env default = do
    x ← float (given env default)
    elim arg [ none ↦ some x | some t ↦ float t ]

  -- the node that `main` makes; `none` where the program ends before
  unfoldable pub setup : Args → Environment → Option (Node F)
  unfolding number forced_variable given
  setup a e = do
    interval ← number a.interval e.interval (codes "2")
    rate ← number a.anomaly_rate e.anomaly_rate (codes "0.03")
    forced ← forced_variable a.force_alert e.force_alert
    some (
        init fl (given a.id (given e.node_id (codes "NODE01")))
          (given a.location (given e.node_location (codes "Sin ubicacion"))) rate forced)

  -- `main`
  unfoldable pub start : Args → Environment → Farewell → List (Cycle F) → Option (World F × Exit)
  unfolding setup
  start a e f cycles = do
    node ← setup a e
    some (run fl f cycles (record { node = node; trace = [] }))

  setup-init :
      (a : Args) (e : Environment) (n : Node F)
      → setup a e ≡ some n
      → (rate : F) × ((forced : Option Text) × (init fl
              (given a.id (given e.node_id (codes "NODE01")))
              (given a.location (given e.node_location (codes "Sin ubicacion")))
              rate
              forced
            ≡ n))
  unfolding setup
  setup-init a e n h =
      let (i, (hi, h₁)) = bind_some (number a.interval e.interval (codes "2")) _ h in
      let (rate, (hr, h₂)) = bind_some (number a.anomaly_rate e.anomaly_rate (codes "0.03")) _ h₁ in
      let (forced, (hf, h₃)) = bind_some (forced_variable a.force_alert e.force_alert) _ h₂ in
      (rate, (forced, cc))

  -- Whatever the command line and the environment say and the network does, what the program sends, if it
  -- starts, is a session of the node that `--id` names, or else NODE_ID, or else NODE01.
  pub start-Conforms :
      (a : Args) (e : Environment) (f : Farewell) (cycles : List (Cycle F)) (w : World F) (x : Exit)
      → start a e f cycles ≡ some (w, x)
      → (s : Option ℕ) × Conforms (given a.id (given e.node_id (codes "NODE01"))) w.trace s
  unfolding start
  start-Conforms a e f cycles w x h =
      let (n, (hn, h₁)) = bind_some (setup a e) _ h in
      let (rate, (forced, same)) = setup-init a e n hn in
      let id = given a.id (given e.node_id (codes "NODE01")) in
      let session =
        run-Conforms fl id (given a.location (given e.node_location (codes "Sin ubicacion"))) rate
          forced f cycles in
      let named =
        subst
          (λ m.
            (s : Option ℕ) × Conforms id (run fl f cycles (record { node = m; trace = [] })).0.trace
              s)
          same session in
      let same_end : run fl f cycles (record { node = n; trace = [] }) ≡ (w, x) = cc in
      subst (λ r. (s : Option ℕ) × Conforms id r.0.trace s) same_end named
