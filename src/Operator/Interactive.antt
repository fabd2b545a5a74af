-- ===== src/Operator/Interactive.antt =====
-- operator_client/operator_client.py: `interactive` and `main`, over what the user types and what
-- arrives. An interruption of `send` or `pretty` and a line that `input` cannot decode, which end the client
-- with a traceback, are not modelled.
use telematica_telemetria.Base.{
  ℕ, zero, suc, Bool, true, false, ◌&&◌, Option, none, some, List, [], ◌∷◌, ◌++◌, if◌then◌else◌,
}
use telematica_telemetria.Base.Text.{Text, codes, text_eq, strip}
use telematica_telemetria.Operator.State.{
  Packet, Outcome, got, raised, unfinished, eof_error, Operator, connected,
}
use telematica_telemetria.Operator.Send.{send, listen_once}
use telematica_telemetria.Operator.Pretty.{pretty}

-- What `input` gives: a line, or EOFError or KeyboardInterrupt.
pub data Typed : Type 0 where
  entered : Text → Typed
  interrupted : Typed

-- One round of the loop of `interactive`: what arrives, how often the listener looks while the user
-- is idle, what is typed, what is typed as a node's name if it is asked for, and whether `sendall`
-- succeeds.
pub record Turn : Type 0 where
  pub arrives : List Packet
  pub looks : ℕ
  pub typed : Typed
  pub node : Typed
  pub goes : Bool

-- What comes of what was typed: an empty line, an exception that nothing catches, or a command.
pub data Choice : Type 0 where
  again : Choice
  crash : Choice
  command : Text → Choice

-- the dictionary of the menu
unfoldable pub shortcut : Text → Text
shortcut raw =
    if text_eq raw (codes "1")
    then codes "LIST_NODES"
    else if text_eq raw (codes "4")
    then codes "GET_ALERTS"
    else if text_eq raw (codes "5")
    then codes "SYSTEM_STATUS"
    else if text_eq raw (codes "6")
    then codes "SUBSCRIBE_ALERTS"
    else if text_eq raw (codes "7")
    then codes "QUIT"
    else raw

-- the first line, stripped; an interruption there counts as QUIT
unfoldable pub first_input : Typed → Text
first_input (entered t) = strip t
first_input interrupted = codes "QUIT"

-- the second `input` stands outside the `try`
unfoldable pub with_node : Text → Typed → Choice
unfolding shortcut
with_node prefix (entered t) = command (shortcut (prefix ++ strip t))
with_node prefix interrupted = crash

unfoldable pub choose : Typed → Typed → Choice
unfolding first_input with_node
choose typed node =
    let raw = first_input typed in
    if text_eq raw []
    then again
    else if text_eq raw (codes "2")
    then with_node (codes "GET_LAST|") node
    else if text_eq raw (codes "3")
    then with_node (codes "GET_STATUS|") node
    else command (shortcut raw)

-- The listener looks up to `n` times, if the operator is subscribed and as long as it goes on.
unfoldable pub listen : ℕ → Operator → Operator
listen zero op = op
listen (suc n) op =
    let (goes_on, op') = listen_once op in
    let rest = listen n op' in if op.subscribed then (if goes_on then rest else op') else op

-- `raw == "SUBSCRIBE_ALERTS" and lines and lines[0] == "OK|SUBSCRIBED"`
unfoldable pub confirms : Text → List Text → Bool
confirms raw [] = false
confirms raw (first ∷ lines) =
    text_eq raw (codes "SUBSCRIBE_ALERTS") && text_eq first (codes "OK|SUBSCRIBED")

-- How a session ended, the client behind it, and what `pretty` printed.
pub record Session : Type 0 where
  pub exit : Outcome ℕ
  pub op : Operator
  pub screen : List Text

-- behind a reply: `pretty`, the subscription, and the test for QUIT
unfoldable pub after_reply :
    Text → List Text → Operator → List Text → (Operator → List Text → Session) → Session
unfolding confirms
after_reply raw lines op screen loop =
    let (printed, e) = pretty lines in
    elim e [
      | some x ↦ record { exit = raised x; op = op; screen = screen ++ printed }
      | none ↦
          (let op' = if confirms raw lines then record op { subscribed = true } else op in
            if text_eq raw (codes "QUIT")
            then record { exit = got 0; op = op'; screen = screen ++ printed }
            else loop op' (screen ++ printed))
    ]

-- `send` and what follows it; an OSError ends the session with status 1
unfoldable pub run_command :
    Bool → Text → Operator → List Text → (Operator → List Text → Session) → Session
unfolding after_reply
run_command goes raw op screen loop =
    let (r, op') = send goes raw op in
    elim r [
      | got lines ↦ after_reply raw lines op' screen loop
      | raised x ↦ record { exit = got 1; op = op'; screen = screen }
      | unfinished ↦ record { exit = unfinished; op = op'; screen = screen }
    ]

unfoldable pub take_choice :
    Choice → Bool → Operator → List Text → (Operator → List Text → Session) → Session
unfolding run_command
take_choice again goes op screen loop = loop op screen
take_choice crash goes op screen loop = record { exit = raised eof_error; op = op; screen = screen }
take_choice (command raw) goes op screen loop = run_command goes raw op screen loop

-- `interactive`; it waits for `input` when the turns are used up
unfoldable pub interactive : List Turn → Operator → List Text → Session
unfolding take_choice choose listen
interactive [] op screen = record { exit = unfinished; op = op; screen = screen }
interactive (t ∷ turns) op screen =
    take_choice (choose t.typed t.node) t.goes
      (listen t.looks (record op { inbox = op.inbox ++ t.arrives })) screen (interactive turns)

-- the single command of `--cmd`, then QUIT; what `send` or `pretty` raises, nothing catches
unfoldable pub single_command : Text → Bool → Bool → Operator → Session
single_command cmd goes quits op =
    let (r, op') = send goes cmd op in
    elim r [
      | raised x ↦ record { exit = raised x; op = op'; screen = [] }
      | unfinished ↦ record { exit = unfinished; op = op'; screen = [] }
      | got lines ↦
          (let (printed, e) = pretty lines in
            let (r', op'') = send quits (codes "QUIT") op' in
            elim e [
              | some x ↦ record { exit = raised x; op = op'; screen = printed }
              | none ↦ record {
                exit = elim r' [ got _ ↦ got 0 | raised x ↦ raised x | unfinished ↦ unfinished ];
                op = op'';
                screen = printed;
              }
            ])
    ]

-- `main`: status 2 where the connection fails; an empty `--cmd` counts as none
unfoldable pub main : Bool → Option Text → Bool → Bool → List Turn → List Packet → Session
unfolding single_command interactive
main connects cmd goes quits turns inbox =
    let op = connected inbox in
    if connects
    then elim cmd [
      | none ↦ interactive turns op []
      | some c ↦ if text_eq c [] then interactive turns op [] else single_command c goes quits op
    ]
    else record { exit = got 2; op = op; screen = [] }
