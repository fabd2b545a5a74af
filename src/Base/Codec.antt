-- ===== src/Base/Codec.antt =====
-- `str.encode()` and `bytes.decode(errors="replace")` in UTF-8.
use telematica_telemetria.Base.Text.{Text, Bytes, codes}
use telematica_telemetria.Base.Tests.{leb, ltb, ◌==◌, if◌then◌else◌}
use Prim.Native.Nat.{ℕ, ◌+◌, ◌-◌, ◌*◌, ◌/◌, ◌%◌, ◌<◌}
use telematica_telemetria.Base.Lists.{All}
use native.Mathlib.Omega.{arith}
use mathlib.Core.Path.{◌≡◌, refl, ap, sym, ◌∙◌}
use mathlib.Core.Bool.{true, ◌&&◌, ◌||◌}
use mathlib.Core.List.{append-nil, [], ◌∷◌, ◌++◌}

encode_char : ℕ → Bytes
encode_char c =
    if ltb c 0x80
    then c ∷ []
    else if ltb c 0x800
    then (0xc0 + c / 64) ∷ (0x80 + c % 64) ∷ []
    else if ltb c 0x10000
    then (0xe0 + c / 4096) ∷ (0x80 + c / 64 % 64) ∷ (0x80 + c % 64) ∷ []
    else (0xf0 + c / 262144) ∷ (0x80 + c / 4096 % 64) ∷ (0x80 + c / 64 % 64) ∷ (0x80 + c % 64) ∷ []

-- a code point that is not a surrogate
abbrev pub IsScalar : ℕ → Type 0
IsScalar c = (ltb c 0xd800 || ltb 0xdfff c) ≡ true

-- The texts of the model are taken to hold no surrogates: for one, Python raises a UnicodeEncodeError, which is a
-- ValueError, where this writes three bytes.
unfoldable pub encode : Text → Bytes
unfolding encode_char
encode [] = []
encode (c ∷ s) = encode_char c ++ encode s

-- What the decoder has read of a character: how many bytes are missing, the bits so far, and the
-- range of the next byte.
record Pending : Type 0 where
  need : ℕ
  bits : ℕ
  low : ℕ
  high : ℕ

abbrev idle : Pending
idle = record { need = 0; bits = 0; low = 0x80; high = 0xbf }

-- A byte that begins a character: the state behind it, and what is decoded at once.
first_byte : ℕ → Pending × Text
first_byte b =
    if ltb b 0x80
    then (idle, b ∷ [])
    else if ltb b 0xc2
    then (idle, 0xfffd ∷ [])
    else if ltb b 0xe0
    then (record { need = 1; bits = b - 0xc0; low = 0x80; high = 0xbf }, [])
    else if ltb b 0xf0
    then (
      record {
        need = 2;
        bits = b - 0xe0;
        low = if b == 0xe0 then 0xa0 else 0x80;
        high = if b == 0xed then 0x9f else 0xbf;
      },
      [],
    )
    else if ltb b 0xf5
    then (
      record {
        need = 3;
        bits = b - 0xf0;
        low = if b == 0xf0 then 0x90 else 0x80;
        high = if b == 0xf4 then 0x8f else 0xbf;
      },
      [],
    )
    else (idle, 0xfffd ∷ [])

-- A byte behind `p`: it goes on, or an error ends the character and the byte begins another.
next_byte : Pending → ℕ → Pending × Text
unfolding first_byte
next_byte p b =
    let bits' = p.bits * 64 + (b - 0x80) in
    if p.need == 0
    then first_byte b
    else if leb p.low b && leb b p.high
    then if p.need == 1
      then (idle, bits' ∷ [])
      else (record { need = p.need - 1; bits = bits'; low = 0x80; high = 0xbf }, [])
    else (let (q, out) = first_byte b in (q, 0xfffd ∷ out))

decode_from : Pending → Bytes → Text
unfolding next_byte
decode_from p [] = if p.need == 0 then [] else 0xfffd ∷ []
decode_from p (b ∷ s) = let (q, out) = next_byte p b in out ++ decode_from q s

unfoldable pub decode : Bytes → Text
unfolding decode_from
decode s = decode_from idle s

accent : decode (encode (codes "año €")) ≡ codes "año €"
unfolding decode encode
accent = refl

broken : decode (0x61 ∷ 0xe2 ∷ 0x82 ∷ 0x62 ∷ 0xff ∷ []) ≡ 0x61 ∷ 0xfffd ∷ 0x62 ∷ 0xfffd ∷ []
unfolding decode
broken = refl

-- a text of ASCII is its bytes
pub encode_ascii : (s : Text) → All (λ c. c < 128) s → encode s ≡ s
unfolding encode encode_char
encode_ascii [] h = refl
encode_ascii (c ∷ s) h = ground (arith, encode_ascii s h.1)

-- the bytes of ASCII in front are decoded as they are
pub decode-prefix : (p s : Bytes) → All (λ c. c < 128) p → decode (p ++ s) ≡ p ++ decode s
unfolding decode decode_from next_byte first_byte
decode-prefix [] s h = refl
decode-prefix (c ∷ p) s h = ground (arith, decode-prefix p s h.1)

pub decode_ascii : (s : Bytes) → All (λ c. c < 128) s → decode s ≡ s
unfolding decode
decode_ascii s h = ap decode (sym (append-nil s)) ∙ decode-prefix s [] h ∙ append-nil s
