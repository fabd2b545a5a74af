-- ===== src/Operator/Tests.antt =====
-- operator_client/operator_client.py: concrete calls and sessions.
use telematica_telemetria.Base.{true, false, List, [], ◌∷◌, ◌++◌, map, ◌≡◌, refl}
use telematica_telemetria.Base.Text.{Bytes, codes, starts_with, text_eq, contains, split}
use telematica_telemetria.Base.Text.Parts.{Lacks-of_contains}
use telematica_telemetria.Base.Codec.{encode, decode}
use telematica_telemetria.Operator.State.{
  chunk, timeout, closed, got, Operator, connected, delivered,
}
use telematica_telemetria.Operator.Receive.{read_text, readline}
use telematica_telemetria.Operator.Send.{send, is_multi}
use telematica_telemetria.Operator.Pretty.{pretty}
use telematica_telemetria.Operator.Interactive.{Turn, entered, interrupted, interactive}
use telematica_telemetria.Operator.Lines.{Reads, readline_lossless}
use telematica_telemetria.Operator.Framing.{Advanced, readline_next}
use telematica_telemetria.Operator.Collect.{wire, Replied}
use telematica_telemetria.Operator.Reply.{IsReply, send_one_reply, long}
use telematica_telemetria.Base.Text.{strip, starts_with}
use telematica_telemetria.Base.Codec.{decode}
use telematica_telemetria.Operator.Send.{is_early_alert, still_multi}
use telematica_telemetria.Operator.Receive.{cut_line}
use telematica_telemetria.Operator.Pretty.{pretty_line}
use telematica_telemetria.Operator.Display.{is_done, pretty_done}

abbrev alert : Bytes
alert = codes "ALERT|N|T|9|1"

abbrev head : Bytes
head = codes "OK|NODES|1"

abbrev row : Bytes
row = codes "NODE|N|Sala|UP|3|9|0"

abbrev last : Bytes
last = codes "END"

-- a subscribed operator with the start of an alert in its buffer; the rest comes in one packet
abbrev subscriber : Operator
subscriber = record {
  buf = codes "ALERT|";
  subscribed = true;
  inbox = chunk b'N' (codes "|T|9|1\nOK|NODES|1\nNODE|N|Sala|UP|3|9|0\nEND\nALE") ∷ [];
  outbox = [];
  alerts = [];
}

-- the same, cut by a time out
abbrev slow : Operator
slow = record subscriber { inbox = timeout ∷ subscriber.inbox }

list-IsReply : IsReply (head ∷ row ∷ last ∷ [])
unfolding read_text starts_with is_multi text_eq decode contains
list-IsReply =
    long head (row ∷ []) last (Lacks-of_contains b'\n' head refl, refl) refl
      ((Lacks-of_contains b'\n' row refl, refl), tt) (Lacks-of_contains b'\n' last refl) refl refl

send_one_reply_example :
    Replied
      (record subscriber { outbox = encode (codes "LIST_NODES" ++ b'\n' ∷ []) ∷ [] })
      (map read_text (head ∷ row ∷ last ∷ []))
      (map read_text (alert ∷ []))
      (codes "ALE")
      (send true (codes "LIST_NODES") subscriber)
unfolding read_text starts_with decode contains
send_one_reply_example =
    send_one_reply subscriber (codes "LIST_NODES") (alert ∷ []) (head ∷ row ∷ last ∷ [])
      (codes "ALE") tt (λ _. refl) ((Lacks-of_contains b'\n' alert refl, refl), tt) list-IsReply
      refl

readline_lossless_example :
    Reads
      (slow.buf ++ delivered slow.inbox)
      (readline slow).0
      (readline slow).1.buf
      (readline slow).1.inbox
readline_lossless_example = readline_lossless slow

readline_next_example :
    ((readline subscriber).0 ≡ got (read_text alert))
    × Advanced subscriber (readline subscriber).1 (wire (head ∷ row ∷ last ∷ []) ++ codes "ALE")
unfolding contains
readline_next_example =
    readline_next subscriber alert (wire (head ∷ row ∷ last ∷ []) ++ codes "ALE") tt
      (Lacks-of_contains b'\n' alert refl) refl

pretty_done_example : is_done (pretty (codes "OK|SYSTEM|up=1;nodes" ∷ [])) ≡ false
unfolding split text_eq
pretty_done_example = pretty_done (codes "OK|SYSTEM|up=1;nodes" ∷ [])

-- A session: PING is answered, then the input ends, and QUIT is not answered.
abbrev turns : List Turn
turns =
    record {
      arrives = chunk b'O' (codes "K|PONG\n") ∷ [];
      looks = 2;
      typed = entered (codes "PING");
      node = interrupted;
      goes = true;
    }
    ∷ record {
      arrives = closed ∷ [];
      looks = 0;
      typed = interrupted;
      node = interrupted;
      goes = true;
    }
    ∷ []

-- The session ends with status 1: QUIT was not answered.
session_end : (interactive turns (connected []) []).exit ≡ got 1
unfolding interactive text_eq strip send readline contains is_early_alert starts_with decode
    cut_line still_multi pretty pretty_line split
session_end = refl
