-- ===== src/Operator/Collect.antt =====
-- operator_client/operator_client.py: the rounds of the loop of `send`, one line at a time.
use telematica_telemetria.Base.{
  ℕ, zero, suc, ◌<◌, Bool, true, false, not, ◌||◌, List, [], ◌∷◌, ◌++◌, map, ◌≡◌, refl, arith, sym,
  ◌∙◌, ap, All, append_assoc, append-nil, length,
}
use telematica_telemetria.Base.Text.{Text, Bytes, OneLine, codes, text_eq}
use telematica_telemetria.Operator.State.{Outcome, got, Operator}
use telematica_telemetria.Operator.Receive.{read_text, readline}
use telematica_telemetria.Operator.Send.{is_nil, is_early_alert, still_multi, collect, pending}
use telematica_telemetria.Operator.Framing.{Steady, Advanced, readline_next}

-- Lines as they stand in the stream.
abbrev pub wire : List Bytes → Bytes
wire [] = []
wire (l ∷ lines) = l ++ b'\n' ∷ wire lines

-- A call that began at `op` returned `lines`, printed `shown`, and left `rest` to come.
pub record Replied (op : Operator) (lines shown : List Text) (rest : Bytes)
    (res : Outcome (List Text) × Operator) : Type 0 where
  pub result : res.0 ≡ got lines
  pub left : pending res.1 ≡ rest
  pub steady : Steady res.1.inbox
  pub same_outbox : res.1.outbox ≡ op.outbox
  pub printed : res.1.alerts ≡ op.alerts ++ shown
  pub same_mode : res.1.subscribed ≡ op.subscribed

-- what a line does that comes first
module _ (fuel : ℕ) (lines : List Text) (multi : Bool) (op : Operator) (line : Text)
    (next : (readline op).0 ≡ got line) where
  pub collect_alert :
      is_early_alert (readline op).1 lines line ≡ true
      → collect (suc fuel) lines multi op
        ≡ collect fuel lines multi
            (record (readline op).1 { alerts = (readline op).1.alerts ++ line ∷ [] })
  unfolding collect
  collect_alert e = ground arith

  pub collect_done :
      is_early_alert (readline op).1 lines line ≡ false
      → (not (still_multi multi lines line) || text_eq line (codes "END")) ≡ true
      → collect (suc fuel) lines multi op ≡ (got (lines ++ line ∷ []), (readline op).1)
  unfolding collect
  collect_done e d = ground arith

  pub collect_more :
      is_early_alert (readline op).1 lines line ≡ false
      → (not (still_multi multi lines line) || text_eq line (codes "END")) ≡ false
      → collect (suc fuel) lines multi op
        ≡ collect fuel (lines ++ line ∷ []) (still_multi multi lines line) (readline op).1
  unfolding collect
  collect_more e d = ground arith

-- a line that was read, then the rest of the call
pub after_line :
    (op op' : Operator) (mid rest : Bytes) (lines shown : List Text)
    (res : Outcome (List Text) × Operator)
    → Advanced op op' mid
    → Replied op' lines shown rest res
    → Replied op lines shown rest res
after_line op op' mid rest lines shown res a r = record {
  result = r.result;
  left = r.left;
  steady = r.steady;
  same_outbox = r.same_outbox ∙ a.same_outbox;
  printed = r.printed ∙ ap (λ (t : List Text). t ++ shown) a.same_alerts;
  same_mode = r.same_mode ∙ a.same_mode;
}

pub returned_now :
    (op op' : Operator) (rest : Bytes) (lines : List Text)
    → Advanced op op' rest
    → Replied op lines [] rest (got lines, op')
returned_now op op' rest lines a = record {
  result = refl;
  left = a.left;
  steady = a.steady;
  same_outbox = a.same_outbox;
  printed = a.same_alerts ∙ sym (append-nil op.alerts);
  same_mode = a.same_mode;
}

-- The lines of the body of a long reply: none of them reads END.
abbrev pub NoEnd : List Bytes → Type 0
NoEnd = All (λ l. OneLine l × (text_eq (read_text l) (codes "END") ≡ false))

pub is_nil-append : (lines : List Text) (t : Text) → is_nil (lines ++ t ∷ []) ≡ false
is_nil-append [] t = refl
is_nil-append (l ∷ lines) t = refl

pub not_first :
    (op : Operator) (lines : List Text) (t : Text)
    → is_nil lines ≡ false
    → (is_early_alert op lines t ≡ false) × (still_multi true lines t ≡ true)
unfolding is_early_alert still_multi
not_first op lines t n = ground arith

-- The last lines of a long reply: a body, and a line that reads END.
pub collect_body :
    (fuel : ℕ) (lines : List Text) (op : Operator) (body : List Bytes) (last rest : Bytes)
    → length body < fuel
    → is_nil lines ≡ false
    → Steady op.inbox
    → NoEnd body
    → OneLine last
    → text_eq (read_text last) (codes "END") ≡ true
    → pending op ≡ wire body ++ (last ++ b'\n' ∷ rest)
    → Replied op
        (lines ++ (map read_text body ++ read_text last ∷ []))
        []
        rest
        (collect fuel lines true op)
collect_body zero lines op body last rest lt n st nb ol e p = absurd (omega arith)
collect_body (suc fuel) lines op [] last rest lt n st nb ol e p =
    let (got_it, adv) = readline_next op last rest st ol p in
    let (no_alert, multi) = not_first (readline op).1 lines (read_text last) n in
    rw (collect_done fuel lines true op (read_text last) got_it no_alert (ground arith))
      (returned_now op (readline op).1 rest _ adv)
collect_body (suc fuel) lines op (b ∷ body) last rest lt n st nb ol e p =
    let mid = wire body ++ (last ++ b'\n' ∷ rest) in
    let (got_it, adv) =
      readline_next op b mid st nb.0.0 (p ∙ append_assoc b (b'\n' ∷ wire body) _) in
    let (no_alert, multi) = not_first (readline op).1 lines (read_text b) n in
    let done =
      collect_body fuel (lines ++ read_text b ∷ []) (readline op).1 body last rest (omega arith)
        (is_nil-append lines (read_text b)) adv.steady nb.1 ol e adv.left in
    rw
      (
        collect_more fuel lines true op (read_text b) got_it no_alert (ground (arith, nb.0.1)),
        multi,
        ← append_assoc lines (read_text b ∷ []) (map read_text body ++ read_text last ∷ []),
      )
      (after_line op (readline op).1 mid rest _ [] _ adv done)
