-- ===== src/Server/Buffer.antt =====
-- server/src/protocol.c: what the series of `append` leave in the buffer of a reply.
use telematica_telemetria.Base.{
  ℕ, ◌+◌, ◌-◌, ◌<◌, ◌≤◌, List, [], ◌∷◌, ◌++◌, ◌≡◌, ◌⊎◌, inl, inr, refl, arith, ltb, length, ap, ◌∙◌,
  Bool-cases, append_assoc, append-nil, length-append, length-take-le, take_all,
}
use telematica_telemetria.Base.Text.{Text}
use telematica_telemetria.Server.Slots.{cut}
use telematica_telemetria.Server.Reply.{Out, empty_out, append, append_all, written, write_reply}
use telematica_telemetria.Server.Framing.{concat}

-- The bytes that are counted, those behind them, and a NUL have room.
abbrev IsRoomy : ℕ → Out → Type 0
IsRoomy cap out = length out.used + length out.tail < cap

append-IsRoomy :
    (cap : ℕ) (line : Text) (out : Out) → IsRoomy cap out → IsRoomy cap (append cap line out)
unfolding append
append-IsRoomy cap line out h =
    ground (arith, length-append out.used line, length-take-le (cap - length out.used - 1) line)

append_all-IsRoomy :
    (cap : ℕ) (lines : List Text) (out : Out)
    → IsRoomy cap out
    → IsRoomy cap (append_all cap lines out)
unfolding append_all
append_all-IsRoomy cap [] out h = h
append_all-IsRoomy cap (line ∷ lines) out h =
    append_all-IsRoomy cap lines (append cap line out) (append-IsRoomy cap line out h)

append_fits :
    (cap : ℕ) (line : Text) (out : Out)
    → length out.used + length line < cap
    → append cap line out ≡ record { used = out.used ++ line; tail = [] }
unfolding append
append_fits cap line out h = ground arith

append_all_fits :
    (cap : ℕ) (lines : List Text) (used : Text)
    → length used + length (concat lines) < cap
    → written (append_all cap lines (record { used = used; tail = [] })) ≡ used ++ concat lines
unfolding append_all
append_all_fits cap [] used h = refl
append_all_fits cap (line ∷ lines) used h =
    let first =
      append_fits cap line (record { used = used; tail = [] })
        (omega (arith, length-append line (concat lines))) in
    ap (λ o. written (append_all cap lines o)) first
    ∙ append_all_fits cap lines (used ++ line)
        (omega (arith, length-append line (concat lines), length-append used line))
    ∙ append_assoc used line (concat lines)

-- A reply that is written by a series of `append` stays within its buffer, with a place for the NUL. It is
-- all the lines, one behind the other, unless they are too many for the buffer.
pub write_reply_lem :
    (cap : ℕ) (lines : List Text)
    → 0 < cap
    → (length (write_reply cap lines) < cap)
      × ((write_reply cap lines ≡ concat lines) ⊎ (cap ≤ length (concat lines)))
unfolding write_reply
write_reply_lem cap lines h =
    let out = append_all cap lines empty_out in
    let bound : length (written out) < cap =
      omega (arith, append_all-IsRoomy cap lines empty_out h, length-append out.used out.tail) in
    elim (Bool-cases (ltb (length (concat lines)) cap)) [
      | inl fits ↦ (bound, inl (append_all_fits cap lines [] (ground arith)))
      | inr long ↦ (bound, inr (ground arith))
    ]

-- a single line is cut to the buffer
pub write_reply_one : (cap : ℕ) (line : Text) → 0 < cap → write_reply cap (line ∷ []) ≡ cut cap line
unfolding write_reply append_all append
write_reply_one cap line h =
    ground (arith, append-nil line, take_all (cap - 1) line, append-nil (cut cap line))
