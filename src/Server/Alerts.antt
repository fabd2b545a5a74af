-- ===== src/Server/Alerts.antt =====
-- server/src/state.c: the ring of the latest alerts, and the operators that are subscribed.
use telematica_telemetria.Base.{
  ℕ, zero, suc, ◌+◌, ◌-◌, ◌%◌, Bool, true, false, Option, none, some, List, [], ◌∷◌, ltb, ◌==◌,
  if◌then◌else◌, get_elem?, set, replicate,
}
use telematica_telemetria.Base.Text.{Text}

abbrev pub max_alerts : ℕ
max_alerts = 256

abbrev pub max_subscribers : ℕ
max_subscribers = 32

-- `alert_t`
pub record Alert : Type 0 where
  pub node_id : Text
  pub type : Text
  pub value : Text
  pub at : ℕ

-- `g_alerts`, `g_alert_head` and `g_alert_count`
pub record Ring : Type 0 where
  pub cells : List Alert
  pub head : ℕ
  pub count : ℕ

abbrev pub no_alert : Alert
no_alert = record { node_id = []; type = []; value = []; at = 0 }

abbrev pub empty_ring : Ring
empty_ring = record { cells = replicate max_alerts no_alert; head = 0; count = 0 }

-- the part of `state_add_alert` that writes into the ring
unfoldable pub put_alert : Alert → Ring → Ring
put_alert a r = record {
  cells = set r.cells r.head a;
  head = (r.head + 1) % max_alerts;
  count = if ltb r.count max_alerts then r.count + 1 else r.count;
}

-- the loop of `state_alerts_snapshot`: `rounds` more from `k` on, while fewer than `max` are copied
unfoldable pub copy_alerts : Ring → ℕ → ℕ → ℕ → List Alert
copy_alerts r k zero max = []
copy_alerts r k (suc rounds) zero = []
copy_alerts r k (suc rounds) (suc max) =
    let rest = copy_alerts r (k + 1) rounds max in
    elim (get_elem? r.cells ((r.head + max_alerts - k) % max_alerts)) [
      | none ↦ rest
      | some a ↦ a ∷ rest
    ]

-- `state_alerts_snapshot`
unfoldable pub snapshot : ℕ → Ring → List Alert
unfolding copy_alerts
snapshot max r = copy_alerts r 1 r.count max

-- `g_subscribers`, where a negative number is `none`
abbrev pub no_subscribers : List (Option ℕ)
no_subscribers = replicate max_subscribers none

abbrev pub is_fd : ℕ → Option ℕ → Bool
is_fd fd none = false
is_fd fd (some g) = g == fd

unfoldable pub is_subscribed : ℕ → List (Option ℕ) → Bool
is_subscribed fd [] = false
is_subscribed fd (g ∷ subs) = if is_fd fd g then true else is_subscribed fd subs

unfoldable pub fill_first : ℕ → List (Option ℕ) → List (Option ℕ)
fill_first fd [] = []
fill_first fd (none ∷ subs) = some fd ∷ subs
fill_first fd (some g ∷ subs) = some g ∷ fill_first fd subs

-- `state_subscribe`
unfoldable pub subscribe : ℕ → List (Option ℕ) → List (Option ℕ)
unfolding is_subscribed fill_first
subscribe fd subs = if is_subscribed fd subs then subs else fill_first fd subs

-- `state_unsubscribe`
unfoldable pub unsubscribe : ℕ → List (Option ℕ) → List (Option ℕ)
unsubscribe fd [] = []
unsubscribe fd (g ∷ subs) = (if is_fd fd g then none else g) ∷ unsubscribe fd subs

-- The loop of `state_add_alert` over the subscribers: those that are left, and those that the line was
-- sent to. `fails` says for which `send` returns a negative number.
unfoldable pub broadcast : (ℕ → Bool) → List (Option ℕ) → List (Option ℕ) × List ℕ
broadcast fails [] = ([], [])
broadcast fails (none ∷ subs) = let (left, told) = broadcast fails subs in (none ∷ left, told)
broadcast fails (some fd ∷ subs) =
    let (left, told) = broadcast fails subs in
    if fails fd then (none ∷ left, told) else (some fd ∷ left, fd ∷ told)
