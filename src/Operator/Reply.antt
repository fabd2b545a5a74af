-- ===== src/Operator/Reply.antt =====
-- operator_client/operator_client.py: the replies of the server, and `send`.
use telematica_telemetria.Base.{
  ℕ, zero, suc, ◌+◌, ◌≤◌, ◌<◌, true, false, List, [], ◌∷◌, ◌++◌, map, ◌≡◌, ◌≢◌, refl, arith, sym,
  ◌∙◌, ap, All, append_assoc, length, length-append,
}
use mathlib.Core.List.{map-append}
use telematica_telemetria.Base.Text.{Text, Bytes, OneLine, codes, starts_with, text_eq}
use telematica_telemetria.Base.Codec.{encode}
use telematica_telemetria.Operator.State.{Outcome, Operator}
use telematica_telemetria.Operator.Receive.{read_text, readline}
use telematica_telemetria.Operator.Send.{
  is_multi, is_early_alert, still_multi, collect, pending, send,
}
use telematica_telemetria.Operator.Framing.{Steady, Advanced, readline_next}
use telematica_telemetria.Operator.Collect.{
  wire, Replied, collect_alert, collect_done, collect_more, after_line, returned_now, NoEnd,
  collect_body,
}

-- A line that `send` takes for an alert, in front of a reply.
abbrev pub IsAlert : Bytes → Type 0
IsAlert l = OneLine l × (starts_with (codes "ALERT|") (read_text l) ≡ true)

-- A line that can begin a reply.
abbrev pub IsHead : Bytes → Type 0
IsHead l = OneLine l × (starts_with (codes "ALERT|") (read_text l) ≡ false)

-- A reply of the server: one line, or a line that announces a list, a body and END.
pub data IsReply (lines : List Bytes) : Type 0 where
  single : (l : Bytes) → IsHead l → is_multi (read_text l) ≡ false → lines ≡ l ∷ [] → IsReply lines
  long :
      (head : Bytes) (body : List Bytes) (last : Bytes)
      → IsHead head
      → is_multi (read_text head) ≡ true
      → NoEnd body
      → OneLine last
      → text_eq (read_text last) (codes "END") ≡ true
      → lines ≡ head ∷ (body ++ last ∷ [])
      → IsReply lines

pub wire-append : (ls ms : List Bytes) → wire (ls ++ ms) ≡ wire ls ++ wire ms
wire-append [] ms = refl
wire-append (l ∷ ls) ms =
    ap (λ (t : Bytes). l ++ b'\n' ∷ t) (wire-append ls ms)
    ∙ sym (append_assoc l (b'\n' ∷ wire ls) (wire ms))

length-le-wire : (ls : List Bytes) → length ls ≤ length (wire ls)
length-le-wire [] = omega arith
length-le-wire (l ∷ ls) = omega (arith, length-le-wire ls, length-append l (b'\n' ∷ wire ls))

first_head :
    (op : Operator) (t : Text)
    → starts_with (codes "ALERT|") t ≡ false
    → (is_early_alert op [] t ≡ false) × (still_multi false [] t ≡ is_multi t)
unfolding is_early_alert still_multi
first_head op t h = ground arith

multi_not_end : (t : Text) → is_multi t ≡ true → text_eq t (codes "END") ≡ false
unfolding is_multi text_eq starts_with
multi_not_end [] h = refl
multi_not_end (c ∷ t) h = ground arith

collect_single :
    (fuel : ℕ) (op : Operator) (l rest : Bytes)
    → Steady op.inbox
    → IsHead l
    → is_multi (read_text l) ≡ false
    → pending op ≡ l ++ b'\n' ∷ rest
    → Replied op (read_text l ∷ []) [] rest (collect (suc fuel) [] false op)
collect_single fuel op l rest st h m p =
    let (got_it, adv) = readline_next op l rest st h.0 p in
    let (no_alert, multi) = first_head (readline op).1 (read_text l) h.1 in
    rw (collect_done fuel [] false op (read_text l) got_it no_alert (ground arith))
      (returned_now op (readline op).1 rest _ adv)

collect_long :
    (fuel : ℕ) (op : Operator) (head : Bytes) (body : List Bytes) (last rest : Bytes)
    → length body < fuel
    → Steady op.inbox
    → IsHead head
    → is_multi (read_text head) ≡ true
    → NoEnd body
    → OneLine last
    → text_eq (read_text last) (codes "END") ≡ true
    → pending op ≡ head ++ b'\n' ∷ (wire body ++ (last ++ b'\n' ∷ rest))
    → Replied op
        (read_text head ∷ (map read_text body ++ read_text last ∷ []))
        []
        rest
        (collect (suc fuel) [] false op)
collect_long fuel op head body last rest lt st h m nb ol en p =
    let mid = wire body ++ (last ++ b'\n' ∷ rest) in
    let (got_it, adv) = readline_next op head mid st h.0 p in
    let (no_alert, multi) = first_head (readline op).1 (read_text head) h.1 in
    let done =
      collect_body fuel (read_text head ∷ []) (readline op).1 body last rest lt refl adv.steady nb
        ol en adv.left in
    rw
      (
        collect_more fuel [] false op (read_text head) got_it no_alert
            (ground (arith, multi_not_end (read_text head) m)),
        multi ∙ m,
      )
      (after_line op (readline op).1 mid rest _ [] _ adv done)

wire_long :
    (head : Bytes) (body : List Bytes) (last rest : Bytes)
    → wire (head ∷ (body ++ last ∷ [])) ++ rest
      ≡ head ++ b'\n' ∷ (wire body ++ (last ++ b'\n' ∷ rest))
wire_long head body last rest = simp (wire-append, append_assoc)

map_long :
    (head : Bytes) (body : List Bytes) (last : Bytes)
    → map read_text (head ∷ (body ++ last ∷ []))
      ≡ read_text head ∷ (map read_text body ++ read_text last ∷ [])
map_long head body last = simp map-append

collect_reply :
    (fuel : ℕ) (op : Operator) (reply : List Bytes) (rest : Bytes)
    → length reply ≤ fuel
    → Steady op.inbox
    → IsReply reply
    → pending op ≡ wire reply ++ rest
    → Replied op (map read_text reply) [] rest (collect fuel [] false op)
collect_reply zero op reply rest lt st (single l h m e) p = absurd (omega (arith, ap length e))
collect_reply (suc fuel) op reply rest lt st (single l h m e) p = rw e (
    collect_single fuel op l rest st h m
      (p ∙ ap (λ (r : List Bytes). wire r ++ rest) e ∙ append_assoc l (b'\n' ∷ []) rest))
collect_reply zero op reply rest lt st (long head body last h m nb ol en e) p =
    absurd (omega (arith, ap length e))
collect_reply (suc fuel) op reply rest lt st (long head body last h m nb ol en e) p =
    rw (e, map_long head body last)
      (collect_long fuel op head body last rest
        (omega (arith, ap length e, length-append body (last ∷ []))) st h m nb ol en
        (p ∙ ap (λ (r : List Bytes). wire r ++ rest) e ∙ wire_long head body last rest))

first_alert :
    (op : Operator) (t : Text)
    → op.subscribed ≡ true
    → starts_with (codes "ALERT|") t ≡ true
    → is_early_alert op [] t ≡ true
unfolding is_early_alert
first_alert op t s h = ground arith

-- an alert that was read and printed, then the rest of the call
after_alert :
    (op op' : Operator) (t : Text) (mid rest : Bytes) (lines shown : List Text)
    (res : Outcome (List Text) × Operator)
    → Advanced op op' mid
    → Replied (record op' { alerts = op'.alerts ++ t ∷ [] }) lines shown rest res
    → Replied op lines (t ∷ shown) rest res
after_alert op op' t mid rest lines shown res a r = record {
  result = r.result;
  left = r.left;
  steady = r.steady;
  same_outbox = r.same_outbox ∙ a.same_outbox;
  printed =
      r.printed
      ∙ append_assoc op'.alerts (t ∷ []) shown
      ∙ ap (λ (s : List Text). s ++ t ∷ shown) a.same_alerts;
  same_mode = r.same_mode ∙ a.same_mode;
}

collect-All :
    (fuel : ℕ) (op : Operator) (alerts reply : List Bytes) (rest : Bytes)
    → length alerts + length reply ≤ fuel
    → Steady op.inbox
    → (alerts ≢ [] → op.subscribed ≡ true)
    → All IsAlert alerts
    → IsReply reply
    → pending op ≡ wire alerts ++ (wire reply ++ rest)
    → Replied op (map read_text reply) (map read_text alerts) rest (collect fuel [] false op)
collect-All fuel op [] reply rest lt st sub al r p =
    collect_reply fuel op reply rest (omega arith) st r p
collect-All zero op (a ∷ alerts) reply rest lt st sub al r p = absurd (omega arith)
collect-All (suc fuel) op (a ∷ alerts) reply rest lt st sub al r p =
    let mid = wire alerts ++ (wire reply ++ rest) in
    let (got_it, adv) =
      readline_next op a mid st al.0.0 (p ∙ append_assoc a (b'\n' ∷ wire alerts) _) in
    let subscribed = adv.same_mode ∙ sub (λ (e : a ∷ alerts ≡ []). cc) in
    let op' = (readline op).1 in
    let done =
      collect-All fuel (record op' { alerts = op'.alerts ++ read_text a ∷ [] }) alerts reply rest
        (omega arith) adv.steady (λ _. subscribed) al.1 r adv.left in
    rw
      (collect_alert fuel [] false op (read_text a) got_it
        (first_alert op' (read_text a) subscribed al.0.1))
      (after_alert op op' (read_text a) mid rest _ (map read_text alerts) _ adv done)

-- If what is buffered and arrives is any number of alerts (none, unless the operator is subscribed),
-- one whole reply, and `rest`, and no time out comes first, then `send` puts the command and a line
-- break on the wire, prints the alerts in order, returns the lines of the reply, the END of a long
-- one included, and leaves `rest` for the next call.
pub send_one_reply :
    (op : Operator) (cmd : Text) (alerts reply : List Bytes) (rest : Bytes)
    → Steady op.inbox
    → (alerts ≢ [] → op.subscribed ≡ true)
    → All IsAlert alerts
    → IsReply reply
    → pending op ≡ wire alerts ++ (wire reply ++ rest)
    → Replied
        (record op { outbox = op.outbox ++ encode (cmd ++ b'\n' ∷ []) ∷ [] })
        (map read_text reply)
        (map read_text alerts)
        rest
        (send true cmd op)
unfolding send
send_one_reply op cmd alerts reply rest st sub al r p =
    collect-All (suc (length (pending op))) _ alerts reply rest
      (omega (
        arith,
        ap length p,
        length-append (wire alerts) (wire reply ++ rest),
        length-append (wire reply) rest,
        length-le-wire alerts,
        length-le-wire reply,
      ))
      st sub al r p
