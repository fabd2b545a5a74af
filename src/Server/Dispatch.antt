-- ===== src/Server/Dispatch.antt =====
-- server/src/protocol.c: what the changes of the single commands keep, when they are given fields with a
-- property, a line of a connection with such fields keeps.
use telematica_telemetria.Base.{
  ℕ, Bool, true, false, List, [], ◌∷◌, ◌≡◌, refl, arith, length, if_either, ◌==◌, All,
}
use telematica_telemetria.Base.Text.{Text, Bytes, codes, text_eq}
use telematica_telemetria.Server.Strings.{until_nul, trim_crlf, tlp_split}
use telematica_telemetria.Server.Alerts.{subscribe}
use telematica_telemetria.Server.State.{Server, inc64}
use telematica_telemetria.Server.Udp.{max_fields}
use telematica_telemetria.Server.Tcp.{
  Handled, do_register, do_bye, do_get, do_alerts, with_one, with_two, dispatch, run_fields,
  handle_tcp,
}

module _ (P : Server → Type 0) (Q : Text → Type 0) (udp_port fd cap now : ℕ) where
  do_get-same : (b : Bool) (id : Text) (s : Server) → (do_get udp_port fd cap now b id s).0 ≡ s
  unfolding do_get
  do_get-same b id s = ground arith

  do_alerts-same : (args : List Text) (s : Server) → (do_alerts udp_port fd cap now args s).0 ≡ s
  unfolding do_alerts
  do_alerts-same [] s = refl
  do_alerts-same (limit ∷ more) s = ground arith

  with_one-keeps :
      (command : Text → Server → Handled) (args : List Text) (s : Server)
      → ((id : Text) → Q id → P (command id s).0)
      → All Q args
      → P s
      → P (with_one udp_port fd cap now command args s).0
  unfolding with_one
  with_one-keeps command [] s k q h = h
  with_one-keeps command (id ∷ more) s k q h = k id q.0

  with_two-keeps :
      (command : Text → Text → Server → Handled) (args : List Text) (s : Server)
      → ((a b : Text) → Q a → Q b → P (command a b s).0)
      → All Q args
      → P s
      → P (with_two udp_port fd cap now command args s).0
  unfolding with_two
  with_two-keeps command [] s k q h = h
  with_two-keeps command (a ∷ []) s k q h = h
  with_two-keeps command (a ∷ b ∷ more) s k q h = k a b q.0 q.1.0

  -- the changes: a registration, a BYE, a subscription, and the count of a command
  module _
      (registers : (id loc : Text) (s : Server)
        → Q id
        → Q loc
        → P s
        → P (do_register udp_port fd cap now id loc s).0)
      (leaves : (id : Text) (s : Server) → Q id → P s → P (do_bye udp_port fd cap now id s).0)
      (subscribes : (s : Server) → P s → P (record s { subscribers = subscribe fd s.subscribers }))
      (counts : (s : Server)
        → P s
        → P (record s {
          stats = record s.stats { tcp_commands = inc64 s.stats.tcp_commands };
        })) where
    dispatch-keeps :
        (cmd : Text) (args : List Text) (s : Server)
        → All Q args
        → P s
        → P (dispatch udp_port fd cap now cmd args s).0
    unfolding dispatch
    dispatch-keeps cmd args s q h =
        let P = λ (r : Handled). P r.0 in
        if_either P (text_eq cmd (codes "PING")) h (
          if_either P (text_eq cmd (codes "QUIT")) h (
            if_either P (text_eq cmd (codes "REGISTER"))
              (with_two-keeps _ args s (λ a b qa qb. registers a b s qa qb h) q h)
              (if_either P (text_eq cmd (codes "BYE"))
                (with_one-keeps _ args s (λ id qi. leaves id s qi h) q h)
                (if_either P (text_eq cmd (codes "LIST_NODES")) h (
                  if_either P (text_eq cmd (codes "GET_STATUS"))
                    (with_one-keeps _ args s (λ id qi. (rw (do_get-same true id s) h)) q h)
                    (if_either P (text_eq cmd (codes "GET_LAST"))
                      (with_one-keeps _ args s (λ id qi. (rw (do_get-same false id s) h)) q h)
                      (if_either P (text_eq cmd (codes "GET_ALERTS")) (rw (do_alerts-same args s) h)
                        (if_either P (text_eq cmd (codes "SYSTEM_STATUS")) h (
                          if_either P (text_eq cmd (codes "SUBSCRIBE_ALERTS")) (subscribes s h)
                            h)))))))))

    run_fields-keeps :
        (fields : List Text) (s : Server)
        → All Q fields
        → P s
        → P (run_fields udp_port fd cap now fields s).0
    unfolding run_fields
    run_fields-keeps [] s q h = h
    run_fields-keeps (cmd ∷ args) s q h = dispatch-keeps cmd args _ q.1 (counts s h)

    pub handle_tcp-keeps :
        (l : Bytes) (s : Server)
        → All Q (tlp_split max_fields (trim_crlf (until_nul l)))
        → P s
        → P (handle_tcp udp_port fd cap now l s).0
    unfolding handle_tcp
    handle_tcp-keeps l s q h =
        if_either (λ (r : Handled). P r.0) (length (trim_crlf (until_nul l)) == 0) h
          (run_fields-keeps (tlp_split max_fields (trim_crlf (until_nul l))) s q h)

-- any fields
abbrev pub Any : Text → Type 0
Any s = Unit

pub All-Any : (fields : List Text) → All Any fields
All-Any [] = tt
All-Any (f ∷ fields) = (tt, All-Any fields)
