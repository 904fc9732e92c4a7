-- ===== src/Wire/Bytea.antt =====
-- The text form of a bytea value: PostgreSQL prints `\x` and two hexadecimal digits a byte.
use pglite_go.Base.{
  ℕ, ◌+◌, ◌-◌, ◌/◌, ◌%◌, ◌<◌, ◌≡◌, refl, some, List, [], ◌∷◌, arith, ltb, if◌then◌else◌, All,
}
use pglite_go.Base.Bits.{join_nibbles}
use pglite_go.Wire.Value.{hex_val, hex_bytes, decode_bytea_text}

abbrev pub IsByte : ℕ → Type 0
IsByte b = b < 256

-- A digit below 16, with `a` or `A` for ten.
abbrev pub hex_digit : ℕ → ℕ → ℕ
hex_digit ten n = if ltb n 10 then b'0' + n else ten + (n - 10)

abbrev pub hex_text : ℕ → List ℕ → List ℕ
hex_text ten [] = []
hex_text ten (b ∷ bs) = hex_digit ten (b / 16) ∷ hex_digit ten (b % 16) ∷ hex_text ten bs

hex_val-lower : (n : ℕ) → n < 16 → hex_val (hex_digit b'a' n) ≡ some n
unfolding hex_val
hex_val-lower n h = ground arith

hex_val-upper : (n : ℕ) → n < 16 → hex_val (hex_digit b'A' n) ≡ some n
unfolding hex_val
hex_val-upper n h = ground arith

hex_bytes-text :
    (ten : ℕ)
    → ((n : ℕ) → n < 16 → hex_val (hex_digit ten n) ≡ some n)
    → (bs : List ℕ) → All IsByte bs
    → hex_bytes (hex_text ten bs) ≡ some bs
unfolding hex_bytes
hex_bytes-text ten digit [] h = refl
hex_bytes-text ten digit (b ∷ bs) (h, hs) =
    rw
      (
        digit (b / 16) (omega arith),
        digit (b % 16) (omega arith),
        hex_bytes-text ten digit bs hs,
        join_nibbles b h,
      )
      refl

-- Bytes printed with the prefix of the hex format, with digits in either case, are read back.
pub decode_bytea_text-hex_text :
    (bs : List ℕ)
    → All IsByte bs
    → (decode_bytea_text (92 ∷ b'x' ∷ hex_text b'a' bs) ≡ some bs)
      × (decode_bytea_text (92 ∷ b'x' ∷ hex_text b'A' bs) ≡ some bs)
unfolding decode_bytea_text
decode_bytea_text-hex_text bs h =
    (hex_bytes-text b'a' hex_val-lower bs h, hex_bytes-text b'A' hex_val-upper bs h)
