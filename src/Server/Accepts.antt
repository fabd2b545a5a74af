-- ===== src/Server/Accepts.antt =====
-- node/node.py and server/src/protocol.c: the server reads what a node sends.
use telematica_telemetria.Base.{
  ℕ, ◌^◌, ◌<◌, ◌≤◌, true, false, some, List, [], ◌∷◌, ◌++◌, ◌≡◌, ◌≢◌, refl, arith, All, All-append,
  length, ap, ◌∙◌, append_assoc, length-append,
}
use telematica_telemetria.Base.Text.{Text, codes, text_eq, is_digit, more_digits, show_nat, join}
use telematica_telemetria.Base.Text.Numbers.{
  more_digits-show_nat, All-show_nat, length-show_nat, length-show_nat_pos,
}
use telematica_telemetria.Base.Codec.{encode, encode_ascii}
use telematica_telemetria.Node.Telemetry.{telemetry_msg}
use telematica_telemetria.Server.Strings.{
  until_nul, trim_crlf, tlp_split, skip_blanks, signed_digits, after_blanks, strtol, is_id_char,
  all_id_chars, tlp_valid_id, Doubles,
}
use telematica_telemetria.Server.Slots.{var_len, val_len}
use telematica_telemetria.Server.Udp.{fits, is_value, read_fields, read_telemetry}
use telematica_telemetria.Server.Fields.{
  IsPlain, IsLine, until_nul_all, trim_crlf_line, tlp_split-join,
}

pub All-imp : {P Q : ℕ → Type 0} → ((c : ℕ) → P c → Q c) → (s : Text) → All P s → All Q s
All-imp f [] h = tt
All-imp f (c ∷ s) h = (f c h.0, All-imp f s h.1)

id-IsPlain : (s : Text) → all_id_chars s ≡ true → All IsPlain s
unfolding all_id_chars is_id_char
id-IsPlain [] h = tt
id-IsPlain (c ∷ s) h = (ground arith, id-IsPlain s (ground arith))

pub digits-IsPlain : (s : Text) → All (λ c. is_digit c ≡ true) s → All IsPlain s
digits-IsPlain s h = All-imp (λ c d. ground arith) s h

strtol_digits :
    (n : ℕ) (s : Text)
    → All (λ c. is_digit c ≡ true) s
    → more_digits 0 s ≡ (n, [])
    → length s ≢ 0
    → n < 2 ^ 63
    → strtol s ≡ record { negative = false; size = n; rest = [] }
unfolding strtol skip_blanks after_blanks signed_digits
strtol_digits n [] h e ne lt = absurd (ne refl)
strtol_digits n (c ∷ s) h e ne lt =
    let kept : skip_blanks (c ∷ s) ≡ c ∷ s = ground (arith, h.0) in
    ap (after_blanks (c ∷ s)) kept
    ∙ ground (arith, h.0, ap (λ (r : ℕ × Text). r.0) e, ap (λ (r : ℕ × Text). r.1) e)

message :
    (id num var value : Text)
    → codes "TELEMETRY|"
        ++ id
        ++ codes "|"
        ++ num
        ++ codes "|"
        ++ var
        ++ codes "|"
        ++ value
        ++ b'\n' ∷ []
      ≡ join b'|' (codes "TELEMETRY" ∷ id ∷ num ∷ var ∷ value ∷ []) ++ b'\n' ∷ []
unfolding join
message id num var value = simp append_assoc refl

pub join-IsLine :
    (p : Text) (parts : List Text)
    → All (All IsPlain) (p ∷ parts)
    → All IsLine (join b'|' (p ∷ parts))
unfolding join
join-IsLine p [] h = All-imp (λ c q. omega (arith, q)) p h.0
join-IsLine p (q ∷ parts) h =
    All-append IsLine p (b'|' ∷ join b'|' (q ∷ parts)) (All-imp (λ c q. omega (arith, q)) p h.0)
      (omega arith, join-IsLine q parts h.1)

pub valid-IsPlain : (id : Text) → tlp_valid_id id ≡ true → All IsPlain id
unfolding tlp_valid_id
valid-IsPlain id h = id-IsPlain id (ground arith)

pub valid_short : (id : Text) → tlp_valid_id id ≡ true → length id < 32
unfolding tlp_valid_id
valid_short id h = ground arith

word-IsPlain : All IsPlain (codes "TELEMETRY")
word-IsPlain = ground arith

length_message :
    (id num var value : Text)
    → length id < 32
    → length num ≤ 19
    → length var < 16
    → length value < 32
    → length (join b'|' (codes "TELEMETRY" ∷ id ∷ num ∷ var ∷ value ∷ [])) < 511
unfolding join
length_message id num var value hi hn hv hl =
    let a = length-append id (b'|' ∷ (num ++ b'|' ∷ (var ++ b'|' ∷ value))) in
    let b = length-append num (b'|' ∷ (var ++ b'|' ∷ value)) in
    let c = length-append var (b'|' ∷ value) in omega (arith, a, b, c)

show_nat_some : (n : ℕ) → length (show_nat n) ≢ 0
show_nat_some n e = omega (arith, e, length-show_nat_pos n)

All-positive : (s : Text) → All IsLine s → All (λ c. 0 < c) (s ++ b'\n' ∷ [])
All-positive s h =
    All-append (λ c. 0 < c) s (b'\n' ∷ []) (All-imp (λ c q. omega (arith, q)) s h) (omega arith, tt)

pub All-ascii : (s : Text) → All IsLine s → All (λ c. c < 128) (s ++ b'\n' ∷ [])
All-ascii s h =
    All-append (λ c. c < 128) s (b'\n' ∷ []) (All-imp (λ c q. q.1) s h) (omega arith, tt)

module _ {F : Type 0} (dbl : Doubles F) where
  read_line :
      (s : Text)
      → All IsLine s
      → length s < 511
      → read_telemetry dbl (encode (s ++ b'\n' ∷ [])) ≡ read_fields dbl (tlp_split 8 s)
  unfolding read_telemetry
  read_line s h lt =
      let bytes = encode_ascii (s ++ b'\n' ∷ []) (All-ascii s h) in
      let text : trim_crlf (until_nul (s ++ b'\n' ∷ [])) ≡ s =
        ap trim_crlf (until_nul_all (s ++ b'\n' ∷ []) (All-positive s h)) ∙ trim_crlf_line s h in
      rw bytes (ground (arith, length-append s (b'\n' ∷ []), text))

  read_fields_all :
      (id : Text) (seq : ℕ) (var value : Text)
      → tlp_valid_id id ≡ true
      → seq < 2 ^ 63
      → fits var_len var ≡ true
      → fits val_len value ≡ true
      → is_value dbl var value ≡ true
      → read_fields dbl (codes "TELEMETRY" ∷ id ∷ show_nat seq ∷ var ∷ value ∷ [])
        ≡ some (record { id = id; seq = seq; var = var; value = value })
  unfolding read_fields text_eq
  read_fields_all id seq var value hid lt hvar hval v =
      let num =
        strtol_digits seq (show_nat seq) (All-show_nat seq) (more_digits-show_nat seq)
          (show_nat_some seq) lt in
      rw (num, hid, hvar, hval, v) refl

  -- The server reads a telemetry message of the node as what the node meant: for a valid id, a number of
  -- 63 bits, and a name and a value of printable ASCII characters other than the bar that fit their
  -- fields and that the server takes for a measure.
  pub read_telemetry-telemetry_msg :
      (id : Text) (seq : ℕ) (var value : Text)
      → tlp_valid_id id ≡ true
      → seq < 2 ^ 63
      → fits var_len var ≡ true
      → fits val_len value ≡ true
      → All IsPlain var
      → All IsPlain value
      → is_value dbl var value ≡ true
      → read_telemetry dbl (encode (telemetry_msg id seq var value))
        ≡ some (record { id = id; seq = seq; var = var; value = value })
  unfolding telemetry_msg
  read_telemetry-telemetry_msg id seq var value hid lt hvar hval pvar pval v =
      let parts = id ∷ show_nat seq ∷ var ∷ value ∷ [] in
      let word = codes "TELEMETRY" in
      let plain : All (All IsPlain) (word ∷ parts) = (
        word-IsPlain,
        (
          valid-IsPlain id hid,
          (digits-IsPlain (show_nat seq) (All-show_nat seq), (pvar, (pval, tt))),
        ),
      ) in
      ap (λ t. read_telemetry dbl (encode t)) (message id (show_nat seq) var value)
      ∙ read_line (join b'|' (word ∷ parts)) (join-IsLine word parts plain) (
          length_message id (show_nat seq) var value (valid_short id hid) (length-show_nat seq lt)
            (ground arith) (ground arith))
      ∙ ap (read_fields dbl) (tlp_split-join 8 word parts (omega arith) plain)
      ∙ read_fields_all id seq var value hid lt hvar hval v
