-- ===== src/Server/Framing.antt =====
-- server/src/tcp_operator.c: the lines that `client_thread` finds, and the pieces that TCP delivers.
use telematica_telemetria.Base.{
  ℕ, ◌≤◌, Bool, true, false, List, [], ◌∷◌, ◌++◌, map, ◌≡◌, refl, arith, length, length-append, leb,
  ◌==◌, if◌then◌else◌, append_assoc, append-nil, leb→le, ◌≢◌, All-append, Bool-cases, inl, inr, ap,
  ◌∙◌, sym,
}
use mathlib.Core.Path.{subst}
use telematica_telemetria.Base.Text.{Bytes, OneLine, split, push}
use telematica_telemetria.Server.Client.{
  Inbox, Incoming, finish_line, find_lines, empty_long, receive,
}

-- A connection that has heard nothing.
abbrev pub empty_inbox : Inbox
empty_inbox = record { pending = []; overflow = false }

-- what the outer loop finds in the bytes of a series of `recv`
unfoldable pub receive_all : Inbox → List Bytes → List Incoming × Inbox
receive_all b [] = ([], b)
receive_all b (bytes ∷ chunks) =
    let (lines, b') = receive b bytes in
    let (later, b'') = receive_all b' chunks in (lines ++ later, b'')

abbrev pub concat : List Bytes → Bytes
concat [] = []
concat (bytes ∷ chunks) = bytes ++ concat chunks

-- A line that is complete, by its length alone.
abbrev pub classify : Bytes → Incoming
classify l = finish_line false l

-- all but the last
abbrev pub complete : List Bytes → List Bytes
complete [] = []
complete (l ∷ []) = []
complete (l ∷ m ∷ lines) = l ∷ complete (m ∷ lines)

-- the lines and the rest of a stream, behind the part `p` of a line
lines_behind : Bytes → Bytes → List Incoming × Bytes
lines_behind p [] = ([], p)
lines_behind p (c ∷ s) =
    let onward = lines_behind (p ++ c ∷ []) s in
    let (lines, rest) = lines_behind [] s in
    if c == b'\n' then (classify p ∷ lines, rest) else onward

-- The buffer, which holds no line break, and `overflow` stand for the part `p` of a line.
record Agrees (overflow : Bool) (acc p : Bytes) : Type 0 where
  long : overflow ≡ true → 512 ≤ length p
  same : overflow ≡ false → acc ≡ p
  one_line : OneLine acc

fresh-Agrees : Agrees false [] []
fresh-Agrees = record { long = λ e. absurd (cc); same = λ _. refl; one_line = tt }

finish_line-Agrees : (o : Bool) (acc p : Bytes) → Agrees o acc p → finish_line o acc ≡ classify p
unfolding finish_line
finish_line-Agrees true acc p h = ground (arith, h.long refl)
finish_line-Agrees false acc p h = ap (λ l. classify l) (h.same refl)

Agrees-behind :
    (o : Bool) (acc p : Bytes) (c : ℕ)
    → (c == b'\n') ≡ false
    → Agrees o acc p
    → Agrees o (acc ++ c ∷ []) (p ++ c ∷ [])
Agrees-behind o acc p c e h = record {
  long = λ q. omega (arith, h.long q, length-append p (c ∷ []));
  same = λ q. ap (λ (t : Bytes). t ++ c ∷ []) (h.same q);
  one_line = All-append (λ c. c ≢ b'\n') acc (c ∷ []) h.one_line (ground arith);
}

-- found behind the same part of a line
abbrev Found : List Incoming × Inbox → List Incoming × Bytes → Type 0
Found r s = (r.0 ≡ s.0) × Agrees r.1.overflow r.1.pending s.1

find_lines-Found :
    (o : Bool) (acc p buf : Bytes)
    → Agrees o acc p
    → Found (find_lines o acc buf) (lines_behind p buf)
unfolding find_lines lines_behind
find_lines-Found o acc p [] h = (refl, h)
find_lines-Found o acc p (c ∷ buf) h = elim (Bool-cases (c == b'\n')) [
  | inl e ↦
      let ih = find_lines-Found false [] [] buf fresh-Agrees in
      rw e ((rw (finish_line-Agrees o acc p h, ih.0) refl), ih.1)
  | inr e ↦
      rw e (find_lines-Found o (acc ++ c ∷ []) (p ++ c ∷ []) buf (Agrees-behind o acc p c e h))
]

-- the bytes that are left from the round before hold no line break
find_lines_again :
    (o : Bool) (acc q buf : Bytes)
    → OneLine q
    → find_lines o acc (q ++ buf) ≡ find_lines o (acc ++ q) buf
unfolding find_lines
find_lines_again o acc [] buf h = ap (λ t. find_lines o t buf) (sym (append-nil acc))
find_lines_again o acc (c ∷ q) buf h =
    let other : (c == b'\n') ≡ false = ground (arith, h.0) in
    rw other (
      find_lines_again o (acc ++ c ∷ []) q buf h.1
      ∙ ap (λ t. find_lines o t buf) (append_assoc acc (c ∷ []) q))

empty_long-Agrees :
    (b : Inbox) (p : Bytes)
    → Agrees b.overflow b.pending p
    → Agrees (empty_long b).overflow (empty_long b).pending p
unfolding empty_long
empty_long-Agrees b p h = elim (Bool-cases (leb 512 (length b.pending))) [
  | inl long ↦ rw long (record {
    long = λ _. elim (Bool-cases b.overflow) [
      | inl o ↦ h.long o
      | inr o ↦ omega (arith, ap length (h.same o), leb→le 512 (length b.pending) long)
    ];
    same = λ e. absurd (cc);
    one_line = tt;
  })
  | inr short ↦ rw short h
]

receive-Found :
    (b : Inbox) (p bytes : Bytes)
    → Agrees b.overflow b.pending p
    → Found (receive b bytes) (lines_behind p bytes)
unfolding receive
receive-Found b p bytes h =
    let found = find_lines-Found b.overflow b.pending p bytes h in
    let again = find_lines_again b.overflow [] b.pending bytes h.one_line in
    let all = subst (λ r. Found r (lines_behind p bytes)) (sym again) found in
    (all.0, empty_long-Agrees (find_lines b.overflow [] (b.pending ++ bytes)).1 _ all.1)

lines_behind-append :
    (p s t : Bytes)
    → let (lines, q) = lines_behind p s in
      let (later, rest) = lines_behind q t in lines_behind p (s ++ t) ≡ (lines ++ later, rest)
unfolding lines_behind
lines_behind-append p [] t = refl
lines_behind-append p (c ∷ s) t = elim (Bool-cases (c == b'\n')) [
  | inl e ↦ rw (e, lines_behind-append [] s t)
  | inr e ↦ rw e (lines_behind-append (p ++ c ∷ []) s t)
]

receive_all-Found :
    (b : Inbox) (p : Bytes) (chunks : List Bytes)
    → Agrees b.overflow b.pending p
    → Found (receive_all b chunks) (lines_behind p (concat chunks))
unfolding receive_all lines_behind
receive_all-Found b p [] h = (refl, h)
receive_all-Found b p (bytes ∷ chunks) h =
    let first = receive-Found b p bytes h in
    let later = receive_all-Found (receive b bytes).1 (lines_behind p bytes).1 chunks first.1 in
    rw (lines_behind-append p bytes (concat chunks)) ((rw (first.0, later.0) refl), later.1)

-- the part of a line in front of the first of others
abbrev glue : Bytes → List Bytes → List Bytes
glue p [] = p ∷ []
glue p (l ∷ lines) = (p ++ l) ∷ lines

glue-push :
    (p : Bytes) (c : ℕ) (parts : List Bytes) → glue p (push c parts) ≡ glue (p ++ c ∷ []) parts
glue-push p c [] = refl
glue-push p c (l ∷ parts) = ap (λ t. t ∷ parts) (sym (append_assoc p (c ∷ []) l))

split_some : (s : Bytes) → (l : Bytes) × ((lines : List Bytes) × (split b'\n' s ≡ l ∷ lines))
unfolding split
split_some [] = ([], ([], refl))
split_some (c ∷ s) = elim (Bool-cases (c == b'\n')) [
  | inl e ↦ ([], (split b'\n' s, rw e))
  | inr e ↦ let (l, (lines, same)) = split_some s in (c ∷ l, (lines, rw (e, same)))
]

lines_behind-split :
    (p s : Bytes) → (lines_behind p s).0 ≡ map classify (complete (glue p (split b'\n' s)))
unfolding lines_behind split
lines_behind-split p [] = refl
lines_behind-split p (c ∷ s) = elim (Bool-cases (c == b'\n')) [
  | inl e ↦
      let (l, (lines, same)) = split_some s in rw (e, lines_behind-split [] s, same, append-nil p)
  | inr e ↦ rw (e, lines_behind-split (p ++ c ∷ []) s, glue-push p c (split b'\n' s))
]

-- However TCP cuts the bytes into chunks, `client_thread` finds the lines of the stream that a line break
-- ends, in order: one of fewer than 512 bytes as it is, a longer one as too long.
pub receive_all-split :
    (chunks : List Bytes)
    → (receive_all empty_inbox chunks).0 ≡ map classify (complete (split b'\n' (concat chunks)))
receive_all-split chunks =
    let (l, (lines, same)) = split_some (concat chunks) in
    let found = receive_all-Found empty_inbox [] chunks fresh-Agrees in
    found.0 ∙ lines_behind-split [] (concat chunks) ∙ rw same
