-- ===== src/Server/Welcome.antt =====
-- node/node.py and server/src: a REGISTER of a node, from its message to its view of the reply.
use telematica_telemetria.Base.{
  ℕ, ◌^◌, ◌<◌, ◌≤◌, true, false, some, List, [], ◌∷◌, ◌++◌, ◌≡◌, refl, arith, All, All-append,
  length, ◌==◌, ap, ◌∙◌, append_assoc, length-append, append-nil,
}
use telematica_telemetria.Base.Text.{
  Text, codes, text_eq, show_nat, join, strip, lstrip, is_space, starts_with,
}
use telematica_telemetria.Base.Text.Numbers.{All-show_nat, length-show_nat}
use telematica_telemetria.Base.Codec.{encode, decode, encode_ascii, decode_ascii}
use mathlib.Core.List.{reverse, reverse_aux, reverse-append, reverse-reverse}
use telematica_telemetria.Node.State.{World, vars}
use telematica_telemetria.Node.Link.{register_msg, greet}
use telematica_telemetria.Server.Strings.{
  until_nul, trim_crlf, tlp_split, tlp_valid_id, all_id_chars, is_id_char,
}
use telematica_telemetria.Server.Slots.{Slot, loc_len, register_node, cut}
use telematica_telemetria.Server.State.{Server, inc64}
use telematica_telemetria.Server.Udp.{fits}
use telematica_telemetria.Server.Reply.{row}
use telematica_telemetria.Server.Tcp.{do_register, run_fields, handle_tcp}
use telematica_telemetria.Server.Client.{line, handle_incoming}
use telematica_telemetria.Server.Table.{cut_all}
use telematica_telemetria.Server.Fields.{
  IsPlain, IsLine, until_nul_all, trim_front_all, All-reverse_aux, tlp_split-join,
}
use telematica_telemetria.Server.Accepts.{
  All-imp, All-ascii, join-IsLine, valid-IsPlain, valid_short,
}

-- the line of a REGISTER, and the reply to it
abbrev pub register_line : Text → Text → Text
register_line id loc = join b'|' (codes "REGISTER" ∷ id ∷ loc ∷ join b',' vars ∷ [])

abbrev pub welcome : Text → ℕ → Text
welcome id port = row (codes "OK") (codes "REGISTERED" ∷ id ∷ show_nat port ∷ [])

register_msg-line : (id loc : Text) → register_msg id loc ≡ register_line id loc ++ b'\n' ∷ []
unfolding register_msg join
register_msg-line id loc = simp append_assoc refl

fields-IsPlain :
    (id loc : Text)
    → tlp_valid_id id ≡ true
    → All IsPlain loc
    → All (All IsPlain) (codes "REGISTER" ∷ id ∷ loc ∷ join b',' vars ∷ [])
unfolding join
fields-IsPlain id loc h p = (ground arith, (valid-IsPlain id h, (p, (ground arith, tt))))

trim_crlf_all : (s : Text) → All IsLine s → trim_crlf s ≡ s
unfolding trim_crlf
trim_crlf_all s h =
    ap reverse (trim_front_all (reverse s) (All-reverse_aux s [] h tt)) ∙ reverse-reverse s

length-welcome :
    (id : Text) (port : ℕ)
    → length id < 32
    → length (show_nat port) ≤ 19
    → length (welcome id port) < 8192
length-welcome id port hi hp =
    let tail = b'|' ∷ (show_nat port ++ []) in
    omega (
      arith,
      length-append (id ++ tail) (b'\n' ∷ []),
      length-append id tail,
      length-append (show_nat port) [],
    )

-- what the server makes of the fields
run_register :
    (udp_port fd now : ℕ) (id loc more : Text) (s : Server) (slots : List Slot)
    → tlp_valid_id id ≡ true
    → fits loc_len loc ≡ true
    → udp_port < 2 ^ 63
    → register_node now id loc s.slots ≡ some slots
    → run_fields udp_port fd 8192 now (codes "REGISTER" ∷ id ∷ loc ∷ more ∷ []) s ≡ (
      record s {
        slots = slots;
        stats = record s.stats { tcp_commands = inc64 s.stats.tcp_commands };
      },
      (welcome id udp_port, false),
    )
unfolding run_fields text_eq do_register
run_register udp_port fd now id loc more s slots hid hloc lt e =
    let counted = record s {
      stats = record s.stats { tcp_commands = inc64 s.stats.tcp_commands };
    } in
    let short : cut 8192 (welcome id udp_port) ≡ welcome id udp_port =
      cut_all 8192 (welcome id udp_port)
        (length-welcome id udp_port (valid_short id hid) (length-show_nat udp_port lt)) in
    rw (hid, hloc, e) (ap (λ (t : Text). (record counted { slots = slots }, (t, false))) short)

-- what the node reads of the reply: it has no space
abbrev IsInk : ℕ → Type 0
IsInk c = (32 < c) × (c < 128)

ink-IsLine : (s : Text) → All IsInk s → All IsLine s
ink-IsLine s h = All-imp (λ c q. omega (arith, q)) s h

All-IsInk_reversed : (s t : Text) → All IsInk s → All IsInk t → All IsInk (reverse_aux s t)
All-IsInk_reversed [] t h g = g
All-IsInk_reversed (c ∷ s) t h g = All-IsInk_reversed s (c ∷ t) h.1 (h.0, g)

lstrip_all : (s : Text) → All IsInk s → lstrip s ≡ s
unfolding lstrip is_space
lstrip_all [] h = refl
lstrip_all (c ∷ s) h = ground arith

lstrip_front : (c : ℕ) (s : Text) → IsInk c → lstrip (c ∷ s) ≡ c ∷ s
unfolding lstrip is_space
lstrip_front c s h = ground arith

strip_line : (c : ℕ) (s : Text) → All IsInk (c ∷ s) → strip (c ∷ (s ++ b'\n' ∷ [])) ≡ c ∷ s
unfolding strip lstrip
strip_line c s h =
    let front : lstrip (c ∷ (s ++ b'\n' ∷ [])) ≡ c ∷ (s ++ b'\n' ∷ []) =
      lstrip_front c (s ++ b'\n' ∷ []) h.0 in
    ap (λ t. reverse (lstrip (reverse t))) front
    ∙ ap (λ t. reverse (lstrip t)) (reverse-append (c ∷ s) (b'\n' ∷ []))
    ∙ ap reverse (lstrip_all (reverse (c ∷ s)) (All-IsInk_reversed (c ∷ s) [] h tt))
    ∙ reverse-reverse (c ∷ s)

abbrev welcome_text : Text → ℕ → Text
welcome_text id port = join b'|' (codes "OK" ∷ codes "REGISTERED" ∷ id ∷ show_nat port ∷ [])

welcome-line : (id : Text) (port : ℕ) → welcome id port ≡ welcome_text id port ++ b'\n' ∷ []
unfolding join
welcome-line id port = simp (append_assoc, append-nil) refl

id-IsInk : (s : Text) → all_id_chars s ≡ true → All IsInk s
unfolding all_id_chars is_id_char
id-IsInk [] h = tt
id-IsInk (c ∷ s) h = (ground arith, id-IsInk s (ground arith))

valid-IsInk : (id : Text) → tlp_valid_id id ≡ true → All IsInk id
unfolding tlp_valid_id
valid-IsInk id h = id-IsInk id (ground arith)

digits-IsInk : (n : ℕ) → All IsInk (show_nat n)
digits-IsInk n = All-imp (λ c d. ground arith) (show_nat n) (All-show_nat n)

welcome-IsInk : (id : Text) (port : ℕ) → tlp_valid_id id ≡ true → All IsInk (welcome_text id port)
unfolding join
welcome-IsInk id port h =
    let tail : All IsInk (b'|' ∷ show_nat port) = (omega arith, digits-IsInk port) in
    let rest = All-append IsInk id (b'|' ∷ show_nat port) (valid-IsInk id h) tail in
    All-append IsInk (codes "OK|REGISTERED|") (id ++ b'|' ∷ show_nat port) (ground arith) rest

read_welcome :
    (id : Text) (port : ℕ)
    → tlp_valid_id id ≡ true
    → strip (decode (welcome id port)) ≡ welcome_text id port
unfolding join
read_welcome id port h =
    let ok = welcome-IsInk id port h in
    let ascii = All-ascii (welcome_text id port) (ink-IsLine (welcome_text id port) ok) in
    ap (λ t. strip (decode t)) (welcome-line id port)
    ∙ ap strip (decode_ascii (welcome_text id port ++ b'\n' ∷ []) ascii)
    ∙ strip_line b'O' _ ok

welcome_starts :
    (id : Text) (port : ℕ)
    → tlp_valid_id id ≡ true
    → starts_with (codes "OK|REGISTERED") (strip (decode (welcome id port))) ≡ true
unfolding starts_with join
welcome_starts id port h = ap (starts_with (codes "OK|REGISTERED")) (read_welcome id port h)

length-register_line : (id loc : Text) → 0 < length (register_line id loc)
unfolding join
length-register_line id loc = omega arith

-- a line without line breaks is handled by its fields
handle_tcp_fields :
    (udp_port fd now : ℕ) (l : Text) (fields : List Text) (s : Server)
    → trim_crlf (until_nul l) ≡ l
    → 0 < length l
    → tlp_split 8 l ≡ fields
    → handle_tcp udp_port fd 8192 now l s ≡ run_fields udp_port fd 8192 now fields s
unfolding handle_tcp
handle_tcp_fields udp_port fd now l fields s e lt f =
    let some : (length l == 0) ≡ false = ground arith in rw (e, some, f) refl

-- A node with a valid id and a place of printable ASCII characters, spaces included but no bar, which
-- fits its field, registers where the table has room and the UDP port is below 2 ^ 63: the line that it
-- sends changes the table as `state_register_node` does and counts one command, the server answers
-- OK|REGISTERED with the id and the port, and the node takes the answer for an acceptance, is registered and
-- begins its numbers again.
pub register_accepted :
    {F : Type 0} (udp_port fd now : ℕ) (id loc : Text) (s : Server) (slots : List Slot)
    (w : World F)
    → tlp_valid_id id ≡ true
    → fits loc_len loc ≡ true
    → All IsPlain loc
    → udp_port < 2 ^ 63
    → register_node now id loc s.slots ≡ some slots
    → (encode (register_msg id loc) ≡ register_line id loc ++ b'\n' ∷ [])
      × (handle_incoming udp_port fd now (line (register_line id loc)) s ≡ (
        record s {
          slots = slots;
          stats = record s.stats { tcp_commands = inc64 s.stats.tcp_commands };
        },
        (welcome id udp_port, false),
      ))
      × ((greet (some (strip (decode (welcome id udp_port)))) w).1 ≡ true)
      × ((greet (some (strip (decode (welcome id udp_port)))) w).0.registered ≡ true)
      × ((greet (some (strip (decode (welcome id udp_port)))) w).0.seq ≡ 0)
unfolding handle_incoming greet
register_accepted udp_port fd now id loc s slots w hid hloc ploc lt e =
    let plain = fields-IsPlain id loc hid ploc in
    let ok = join-IsLine (codes "REGISTER") (id ∷ loc ∷ join b',' vars ∷ []) plain in
    let l = register_line id loc in
    let starts = welcome_starts id udp_port hid in
    let text : trim_crlf (until_nul l) ≡ l =
      ap trim_crlf (until_nul_all l (All-imp (λ c q. omega (arith, q)) l ok))
      ∙ trim_crlf_all l ok in
    (
      ap encode (register_msg-line id loc) ∙ encode_ascii (l ++ b'\n' ∷ []) (All-ascii l ok),
      handle_tcp_fields udp_port fd now l _ s text (length-register_line id loc) (
            tlp_split-join 8 (codes "REGISTER") (id ∷ loc ∷ join b',' vars ∷ []) (omega arith)
              plain)
          ∙ run_register udp_port fd now id loc (join b',' vars) s slots hid hloc lt e,
      rw starts refl,
      rw starts refl,
      rw starts refl,
    )
