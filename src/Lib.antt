-- ===== src/Lib.antt =====
-- Plataforma distribuida de telemetría (TLP/1.0): the server, the telemetry node, the operator client
-- and the tools that make the video, with the test that counts lost datagrams.
--
-- The parts and how they interact. A node (node/node.py) resolves the name of the server, registers over
-- TCP, sends one UDP datagram for each variable and round, registers again when the server answers
-- NACK|104, and says BYE. The operator client (operator_client/operator_client.py) keeps one TCP
-- connection, sends commands, reads replies of one line or of several lines up to END, and prints
-- alerts that come in between. Both speak to the server (server/src, in C), which keeps a table of
-- nodes, a ring of alerts and a list of subscribers behind one lock; its threads are one for UDP, one for
-- each TCP connection and the watchdog. In the models of the clients, what the server sends is an input;
-- Server/Accepts and Server/Welcome relate what a node sends to what the server makes of it, and
-- Server/Replies what the server answers to what the operator client reads. The tools of
-- docs/video/edicion are apart from these: montaje.py and its second version montaje_v2.py make the
-- commands for ffmpeg and the subtitles of the video, tarjetas.py the cards that they lay over it.
--
-- The files and the code:
-- - Base: the names that all modules share. Base/Text has Python's operations on str and bytes, as lists
--   of code points and of bytes (startswith, endswith, strip, join, split, ljust, rjust, str of a number),
--   Base/Codec has UTF-8 as `encode` and `decode(errors="replace")` do it, Base/Text/Parts relates
--   split and join, Base/Text/Numbers a number and its decimal digits.
-- - Node: the class Node. State has the attributes and what a run shows to the network; Simulation has
--   `measure`; Link has `_recv_line`, `resolve`, `register` and `bye`; Telemetry has `send_telemetry`
--   and `check_nack`; Run has `run`; Main has `main`. Induction has the induction over a run that Session
--   (the order of the messages), Counters and Range use; Measure is about `measure`, Endings and Outcome about
--   how a run ends; Backoff, Batch, Framing and Unresolved are about single operations.
-- - Operator: the class Operator and the functions beside it. State has the attributes; Receive has
--   `_readline`; Send has `send` and one round of `listen_alerts`; Pretty has `pretty`; Interactive has
--   `interactive` and `main`. Lines and Framing are about `_readline`, Prefix about its text, Collect, Reply and Rounds about `send`,
--   Display about `pretty`.
-- - Montage: docs/video/edicion/montaje.py. Cues has `fix_text` and `regroup`; Lines has `two_lines` and
--   `esc`; Stamp has `ass_time`, `st` of `write_srt`, and the time stamps of `load_srt`; Srt has
--   `load_srt` and `write_srt`; Ass has `write_ass`; Timeline has how `render_clip` and `main` move the
--   cues; Graph and Command have the filter graph and the ffmpeg command of `render_clip`, Pads how ffmpeg joins
--   the chains of a graph; Clips has what `render_clip` makes of an entry of `CLIPS`, Entries the list itself, Main
--   the other commands and `main`, Split what is used of str.split and str.replace. Overlap, Order,
--   StampTrip, TimesTrip, Wiring and Words prove.
-- - MontageV2: docs/video/edicion/montaje_v2.py, as far as it is not the text of montaje.py. Ass has `write_ass` and
--   `write_srt`, Graph and Command the filter graph and the command of `render_clip`, Main the rest of it and
--   `main`. Wiring and Shown prove.
-- - Cards: docs/video/edicion/tarjetas.py. Draw has `code_card`, `src_lines` and `table_card`; Tables and Sources
--   have the cards; Fit proves.
-- - Server: server/src. Slots, Sequence, Alerts and State have state.c (the table, the counters of a node,
--   the ring and the subscribers, `state_add_alert`); Strings, Udp, Reply and Tcp have protocol.c
--   (`tlp_split` and its kin, `tlp_handle_udp`, `append`, `tlp_handle_tcp`); Client has `client_thread` of
--   tcp_operator.c, Watchdog a round of watchdog.c, and Steps a run: the order in which the threads take
--   the lock. Framing is about `client_thread`; Recent, Table, Measures and Subscribers are about state.c;
--   Sane, Invariant, Dispatch, Commands and Runs about the invariant of the state; Totals about the sums of
--   the counters; Watch about the watchdog; Fields, Accepts, Limits, Noted and Heard about a datagram, Welcome about a
--   REGISTER; Buffer about `append`, Replies about the shape of every reply and the operator client that
--   reads it. Http has `build_status_json` of http.c; its child Size proves what it leaves where there is room.
-- - Loss: tests/loss_test.py. Transmit has the loop of `main`; Report compares its counts with the server's.
--
-- State is passed on explicitly. A node's `World` is the object and the list of what it sent and heard,
-- the latest first; a method takes a world and what its environment does (the result of getaddrinfo,
-- of connect, sendall and sleep, the chunks that recv returns, the random draws, whether a signal arrives) and
-- returns the world and how the call ended. Floats are a type with the operations that the source
-- uses (FloatOps); what is proved of them takes the laws in FloatLaws. The times of the subtitles are
-- whole numbers of ticks, their arithmetic exact, where the source rounds floats: a time on the boundary
-- between two roundings can go either way there. The two threads of the operator client meet at its
-- lock: each locked block is one step, and a `Turn` says how often the listener looks while the user is
-- idle.
--
-- The server's state is a record, and what a thread does under the lock is one step on it. A pointer to a
-- node is its id; counters wrap at 2 ^ 64; the clock is an argument and is read once for a call; which
-- `send` to a subscriber fails is an input; a string of C is the list of its bytes, and strtod a parameter
-- (Doubles).
--
-- Loops run over what the environment does (attempts, rounds, packets): when that is used up, the call
-- waits. The one loop on fuel is the one of `send`: the fuel is one more than the bytes that are
-- buffered or on their way, and every round takes at least a line break from them.
--
-- Not modelled: texts with surrogates, on which Python's encode raises an exception; a sequence number of
-- 2 ^ 63 - 1 in `last_seq`, behind which the server's sum overflows a long; an interruption of the operator
-- client outside its prompts; the parser of argparse (what it reads is an input), what only goes to the log, the
-- socket options, the patterns of the table FIX and the class \w (parameters of `regroup`), what PIL and
-- ffmpeg do with the drawings and the commands (every command is taken to succeed); of the server its
-- sockets, the accept loop, main.c, log.c and the rest of the HTTP panel (http.c); and the scripts for
-- deployment.
pub mod Base
pub mod Node
pub mod Operator
pub mod Montage
pub mod MontageV2
pub mod Cards
pub mod Server
pub mod Loss
