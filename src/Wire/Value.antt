-- ===== src/Wire/Value.antt =====
-- The column values of wire.go: `decodeText`, `decodeBinary` and what they call.
--
-- Floating-point numbers are opaque: their type and the three functions of Go's standard library
-- that make them are a parameter.
use pglite_go.Base.{
  ℕ, zero, suc, ◌+◌, ◌-◌, ◌*◌, ◌%◌, ◌^◌, Bool, false, not, Option, none, some, List, [], ◌∷◌, leb,
  ◌==◌, ◌||◌, ◌&&◌, if◌then◌else◌, bytes_eq, codes, bit_or,
}
use pglite_go.Wire.Bytes.{ℤ, pos, signed, parse_int}

pub record Floats : Type 1 where
  pub F : Type 0
  -- strconv.ParseFloat(s, 64), math.Float32frombits and math.Float64frombits
  pub parse_float : List ℕ → Option F
  pub float32_from_bits : ℕ → F
  pub float64_from_bits : ℕ → F

-- A value of type `any`.
pub data Value (F : Type 0) : Type 0 where
  null : Value F
  boolean : Bool → Value F
  int64 : ℤ → Value F
  float64 : F → Value F
  bytea : List ℕ → Value F
  text : List ℕ → Value F

unfoldable pub hex_val : ℕ → Option ℕ
hex_val c =
    if leb b'0' c && leb c b'9'
    then some (c - b'0')
    else if leb b'a' c && leb c b'f'
    then some (c - b'a' + 10)
    else if leb b'A' c && leb c b'F'
    then some (c - b'A' + 10)
    else none

abbrev pub hex_byte : Option ℕ → Option ℕ → Option ℕ
hex_byte (some hi) (some lo) = some (bit_or (hi * 2 ^ 4 % 256) lo)
hex_byte hi lo = none

abbrev pub cons_byte : Option ℕ → Option (List ℕ) → Option (List ℕ)
cons_byte (some b) (some bs) = some (b ∷ bs)
cons_byte b bs = none

-- The loop over the pairs of digits; an odd digit is refused before it.
unfoldable pub hex_bytes : List ℕ → Option (List ℕ)
hex_bytes [] = some []
hex_bytes (a ∷ []) = none
hex_bytes (a ∷ b ∷ h) = cons_byte (hex_byte (hex_val a) (hex_val b)) (hex_bytes h)

unfoldable pub decode_bytea_text : List ℕ → Option (List ℕ)
decode_bytea_text [] = none
decode_bytea_text (c ∷ []) = none
decode_bytea_text (c ∷ d ∷ h) = if c == 92 && d == b'x' then hex_bytes h else none

abbrev pub is_int : ℕ → Bool
is_int oid = oid == 20 || oid == 21 || oid == 23 || oid == 26

-- The word of `n` bytes that a slice of exactly that length holds.
unfoldable pub word : ℕ → ℕ → List ℕ → Option ℕ
word zero v [] = some v
word zero v (b ∷ raw) = none
word (suc n) v [] = none
word (suc n) v (b ∷ raw) = word n (v * 256 + b) raw

abbrev pub or_text : {F A : Type 0} → (A → Value F) → Option A → List ℕ → Value F
or_text f none raw = text raw
or_text f (some a) raw = f a

module _ (fl : Floats) where
  open fl use {F, parse_float, float32_from_bits, float64_from_bits}

  unfoldable pub decode_text : ℕ → List ℕ → Value F
  decode_text oid raw =
      if oid == 16
      then boolean (bytes_eq raw (codes "t") || bytes_eq raw (codes "true"))
      else if is_int oid
      then or_text int64 (parse_int raw) raw
      else if oid == 700 || oid == 701
      then or_text float64 (parse_float raw) raw
      else if oid == 17
      then or_text bytea (decode_bytea_text raw) raw
      else text raw

  abbrev first_set : List ℕ → Bool
  first_set [] = false
  first_set (b ∷ raw) = not (b == 0)

  unfoldable pub decode_binary : ℕ → List ℕ → Value F
  decode_binary oid raw =
      if oid == 16
      then boolean (first_set raw)
      else if oid == 21
      then or_text (λ v. int64 (signed 16 v)) (word 2 0 raw) raw
      else if oid == 23
      then or_text (λ v. int64 (signed 32 v)) (word 4 0 raw) raw
      else if oid == 20
      then or_text (λ v. int64 (signed 64 v)) (word 8 0 raw) raw
      else if oid == 26
      then or_text (λ v. int64 (pos v)) (word 4 0 raw) raw
      else if oid == 700
      then or_text (λ v. float64 (float32_from_bits v)) (word 4 0 raw) raw
      else if oid == 701
      then or_text (λ v. float64 (float64_from_bits v)) (word 8 0 raw) raw
      else if oid == 17
      then bytea raw
      else text raw
