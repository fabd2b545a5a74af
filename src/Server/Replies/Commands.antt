-- ===== src/Server/Replies/Commands.antt =====
-- server/src/protocol.c and operator_client/operator_client.py: every reply of the server is a reply to
-- the operator.
use telematica_telemetria.Base.{
  ℕ, true, false, List, [], ◌∷◌, ◌++◌, refl, arith, length, if_either, All, ◌==◌,
}
use telematica_telemetria.Base.Text.{Text, Bytes, OneLine, codes, text_eq, starts_with}
use telematica_telemetria.Operator.Send.{is_multi}
use telematica_telemetria.Server.State.{Server}
use telematica_telemetria.Server.Strings.{until_nul, trim_crlf, tlp_split}
use telematica_telemetria.Server.Udp.{max_fields}
use telematica_telemetria.Server.Tcp.{Handled, with_one, with_two, dispatch, run_fields, handle_tcp}
use telematica_telemetria.Server.Client.{Incoming, line, too_long, handle_incoming}
use telematica_telemetria.Operator.Prefix.{IsSolid}
use telematica_telemetria.Server.Replies.{Answered, single-Answered}
use telematica_telemetria.Server.Replies.Clean.{IsClean}
use telematica_telemetria.Server.Replies.Answers.{
  err-Answered, do_register-Answered, do_bye-Answered, do_get-Answered, do_alerts-Answered,
  list-Answered, system-Answered,
}

module _ (udp_port fd now : ℕ) where
  with_one-Answered :
      (command : Text → Server → Handled) (args : List Text) (s : Server)
      → ((id : Text) → Answered (command id s).1.0)
      → Answered (with_one udp_port fd 8192 now command args s).1.0
  unfolding with_one
  with_one-Answered command [] s k = err-Answered 100 (codes "BAD_FORMAT") (ground arith)
  with_one-Answered command (id ∷ more) s k = k id

  with_two-Answered :
      (command : Text → Text → Server → Handled) (args : List Text) (s : Server)
      → ((a b : Text) → Answered (command a b s).1.0)
      → Answered (with_two udp_port fd 8192 now command args s).1.0
  unfolding with_two
  with_two-Answered command [] s k = err-Answered 100 (codes "BAD_FORMAT") (ground arith)
  with_two-Answered command (a ∷ []) s k = err-Answered 100 (codes "BAD_FORMAT") (ground arith)
  with_two-Answered command (a ∷ b ∷ more) s k = k a b

  dispatch-Answered :
      (cmd : Text) (args : List Text) (s : Server)
      → IsClean s
      → Answered (dispatch udp_port fd 8192 now cmd args s).1.0
  unfolding dispatch starts_with is_multi
  dispatch-Answered cmd args s h =
      let P = λ (r : Handled). Answered r.1.0 in
      let plain = λ (p : Text) (solid : All IsSolid p) (ol : OneLine (p ++ [])).
        single-Answered p [] solid ol in
      if_either P (text_eq cmd (codes "PING"))
        (plain (codes "OK|PONG") (omega arith) (ground arith) (λ t. refl) (λ t. refl))
        (if_either P (text_eq cmd (codes "QUIT"))
          (plain (codes "OK|BYE") (omega arith) (ground arith) (λ t. refl) (λ t. refl))
          (if_either P (text_eq cmd (codes "REGISTER"))
            (with_two-Answered _ args s (λ a b. do_register-Answered udp_port fd now a b s))
            (if_either P (text_eq cmd (codes "BYE"))
              (with_one-Answered _ args s (λ id. do_bye-Answered udp_port fd now id s))
              (if_either P (text_eq cmd (codes "LIST_NODES")) (list-Answered udp_port fd now s h) (
                if_either P (text_eq cmd (codes "GET_STATUS"))
                  (with_one-Answered _ args s (λ id. do_get-Answered udp_port fd now true id s h))
                  (if_either P (text_eq cmd (codes "GET_LAST"))
                    (with_one-Answered _ args s
                      (λ id. do_get-Answered udp_port fd now false id s h))
                    (if_either P (text_eq cmd (codes "GET_ALERTS"))
                      (do_alerts-Answered udp_port fd now args s h)
                      (if_either P (text_eq cmd (codes "SYSTEM_STATUS"))
                        (system-Answered udp_port fd now s)
                        (if_either P (text_eq cmd (codes "SUBSCRIBE_ALERTS"))
                          (plain (codes "OK|SUBSCRIBED") (omega arith) (ground arith) (λ t. refl)
                            (λ t. refl))
                          (err-Answered 101 (codes "UNKNOWN_COMMAND") (ground arith)))))))))))

  run_fields-Answered :
      (fields : List Text) (s : Server)
      → IsClean s
      → Answered (run_fields udp_port fd 8192 now fields s).1.0
  unfolding run_fields
  run_fields-Answered [] s h = err-Answered 100 (codes "BAD_FORMAT") (ground arith)
  run_fields-Answered (cmd ∷ args) s h =
      dispatch-Answered cmd args _ (record { slots = h.slots; cells = h.cells })

  handle_tcp-Answered :
      (l : Bytes) (s : Server) → IsClean s → Answered (handle_tcp udp_port fd 8192 now l s).1.0
  unfolding handle_tcp
  handle_tcp-Answered l s h =
      if_either (λ (r : Handled). Answered r.1.0) (length (trim_crlf (until_nul l)) == 0)
        (err-Answered 100 (codes "BAD_FORMAT") (ground arith))
        (run_fields-Answered (tlp_split max_fields (trim_crlf (until_nul l))) s h)

-- Whatever line arrives on a connection, where no text of the state holds a line break: the reply of the
-- server is one that the operator's `send` reads as a whole, a line that announces no list, or a line that
-- announces one, a body without END, and END; or else these lines do not fit into the 8192 bytes of the
-- buffer.
pub handle_incoming-Answered :
    (udp_port fd now : ℕ) (l : Incoming) (s : Server)
    → IsClean s
    → Answered (handle_incoming udp_port fd now l s).1.0
unfolding handle_incoming starts_with is_multi
handle_incoming-Answered udp_port fd now (line l) s h = handle_tcp-Answered udp_port fd now l s h
handle_incoming-Answered udp_port fd now too_long s h =
    single-Answered (codes "ERR|105|TOO_LONG") [] (omega arith) (ground arith) (λ t. refl)
      (λ t. refl)
