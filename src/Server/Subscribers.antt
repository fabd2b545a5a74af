-- ===== src/Server/Subscribers.antt =====
-- server/src/state.c: the table of subscribers.
use telematica_telemetria.Base.{
  ℕ, suc, Bool, false, Option, none, some, List, [], ◌∷◌, ◌≡◌, refl, arith, length, ap, ◌==◌, ◌∙◌,
  Bool-cases, inl, inr,
}
use telematica_telemetria.Server.Alerts.{
  is_subscribed, fill_first, subscribe, unsubscribe, broadcast,
}

-- No connection stands twice.
abbrev pub Once : List (Option ℕ) → Type 0
Once [] = Unit
Once (none ∷ subs) = Once subs
Once (some fd ∷ subs) = (is_subscribed fd subs ≡ false) × Once subs

pub record AreSane (subs : List (Option ℕ)) : Type 0 where
  pub size : length subs ≡ 32
  pub once : Once subs

length-fill_first : (fd : ℕ) (subs : List (Option ℕ)) → length (fill_first fd subs) ≡ length subs
unfolding fill_first
length-fill_first fd [] = refl
length-fill_first fd (none ∷ subs) = refl
length-fill_first fd (some g ∷ subs) = ap suc (length-fill_first fd subs)

absent-fill_first :
    (fd g : ℕ) (subs : List (Option ℕ))
    → (g == fd) ≡ false
    → is_subscribed fd subs ≡ false
    → is_subscribed fd (fill_first g subs) ≡ false
unfolding is_subscribed fill_first
absent-fill_first fd g [] e h = refl
absent-fill_first fd g (none ∷ subs) e h = ground arith
absent-fill_first fd g (some k ∷ subs) e h = ground (arith, absent-fill_first fd g subs)

Once-fill_first :
    (fd : ℕ) (subs : List (Option ℕ))
    → is_subscribed fd subs ≡ false
    → Once subs
    → Once (fill_first fd subs)
unfolding is_subscribed fill_first
Once-fill_first fd [] e h = tt
Once-fill_first fd (none ∷ subs) e h = (e, h)
Once-fill_first fd (some g ∷ subs) e h =
    (absent-fill_first g fd subs (ground arith) h.0, Once-fill_first fd subs (ground arith) h.1)

pub subscribe-AreSane :
    (fd : ℕ) (subs : List (Option ℕ)) → AreSane subs → AreSane (subscribe fd subs)
unfolding subscribe
subscribe-AreSane fd subs h = elim (Bool-cases (is_subscribed fd subs)) [
  | inl e ↦ rw e h
  | inr e ↦ rw e (record {
    size = length-fill_first fd subs ∙ h.size;
    once = Once-fill_first fd subs e h.once;
  })
]

absent-unsubscribe :
    (fd g : ℕ) (subs : List (Option ℕ))
    → is_subscribed fd subs ≡ false
    → is_subscribed fd (unsubscribe g subs) ≡ false
unfolding is_subscribed unsubscribe
absent-unsubscribe fd g [] h = refl
absent-unsubscribe fd g (none ∷ subs) h = ground (arith, absent-unsubscribe fd g subs)
absent-unsubscribe fd g (some k ∷ subs) h = ground (arith, absent-unsubscribe fd g subs)

Once-unsubscribe : (g : ℕ) (subs : List (Option ℕ)) → Once subs → Once (unsubscribe g subs)
unfolding unsubscribe
Once-unsubscribe g [] h = tt
Once-unsubscribe g (none ∷ subs) h = Once-unsubscribe g subs h
Once-unsubscribe g (some k ∷ subs) h = elim (Bool-cases (k == g)) [
  | inl e ↦ rw e (Once-unsubscribe g subs h.1)
  | inr e ↦ rw e (absent-unsubscribe k g subs h.0, Once-unsubscribe g subs h.1)
]

length-unsubscribe : (g : ℕ) (subs : List (Option ℕ)) → length (unsubscribe g subs) ≡ length subs
unfolding unsubscribe
length-unsubscribe g [] = refl
length-unsubscribe g (k ∷ subs) = ap suc (length-unsubscribe g subs)

pub unsubscribe-AreSane :
    (fd : ℕ) (subs : List (Option ℕ)) → AreSane subs → AreSane (unsubscribe fd subs)
unsubscribe-AreSane fd subs h = record {
  size = length-unsubscribe fd subs ∙ h.size;
  once = Once-unsubscribe fd subs h.once;
}

absent-broadcast :
    (fails : ℕ → Bool) (fd : ℕ) (subs : List (Option ℕ))
    → is_subscribed fd subs ≡ false
    → is_subscribed fd (broadcast fails subs).0 ≡ false
unfolding is_subscribed broadcast
absent-broadcast fails fd [] h = refl
absent-broadcast fails fd (none ∷ subs) h = ground (arith, absent-broadcast fails fd subs)
absent-broadcast fails fd (some k ∷ subs) h = ground (arith, absent-broadcast fails fd subs)

Once-broadcast :
    (fails : ℕ → Bool) (subs : List (Option ℕ)) → Once subs → Once (broadcast fails subs).0
unfolding broadcast
Once-broadcast fails [] h = tt
Once-broadcast fails (none ∷ subs) h = Once-broadcast fails subs h
Once-broadcast fails (some k ∷ subs) h = elim (Bool-cases (fails k)) [
  | inl e ↦ rw e (Once-broadcast fails subs h.1)
  | inr e ↦ rw e (absent-broadcast fails k subs h.0, Once-broadcast fails subs h.1)
]

length-broadcast :
    (fails : ℕ → Bool) (subs : List (Option ℕ)) → length (broadcast fails subs).0 ≡ length subs
unfolding broadcast
length-broadcast fails [] = refl
length-broadcast fails (none ∷ subs) = ap suc (length-broadcast fails subs)
length-broadcast fails (some k ∷ subs) = ground (arith, length-broadcast fails subs)

pub broadcast-AreSane :
    (fails : ℕ → Bool) (subs : List (Option ℕ)) → AreSane subs → AreSane (broadcast fails subs).0
broadcast-AreSane fails subs h = record {
  size = length-broadcast fails subs ∙ h.size;
  once = Once-broadcast fails subs h.once;
}
