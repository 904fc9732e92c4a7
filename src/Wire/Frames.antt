-- ===== src/Wire/Frames.antt =====
-- Messages of wire.go one behind the other: `frame`, and taking a message off a buffer.
use pglite_go.Base.{
  ℕ, ◌+◌, ◌-◌, ◌*◌, ◌/◌, ◌%◌, ◌^◌, ◌<◌, ◌≡◌, refl, false, List, [], ◌∷◌, ◌++◌, length, drop, arith,
  ltb, length-append, length-drop, take-append, drop-append,
}
use pglite_go.Wire.Message.{frame}
use pglite_go.Wire.Response.{message, split_at, next_message}
use native.Mathlib.Nat.{mod-eq_of_lt}

-- A message: its type and its payload.
abbrev pub Message : Type 0
Message = ℕ × List ℕ

-- The bounds of the payload, a uint32, do not wrap.
abbrev pub Fits : List ℕ → Type 0
Fits payload = length payload + 5 < 2 ^ 32

pub bytes_of_u32 :
    (v : ℕ)
    → v < 2 ^ 32
    → v / 2 ^ 24 % 256 * 2 ^ 24 + v / 2 ^ 16 % 256 * 2 ^ 16 + v / 2 ^ 8 % 256 * 2 ^ 8 + v % 256 ≡ v
bytes_of_u32 v h = omega arith

split_at-payload :
    (typ : ℕ) (payload rest : List ℕ)
    → Fits payload
    → split_at typ (length payload + 4) (payload ++ rest) ≡ message typ payload rest
split_at-payload typ payload rest h =
    rw (fits, wraps, enough, cut, take-append payload rest, drop-append payload rest) refl
  where
    fits : ltb (length (payload ++ rest) + 4) (length payload + 4) ≡ false
    fits = ground (arith, length-append payload rest)

    wraps : (length payload + 4 + 1) % 2 ^ 32 ≡ length payload + 5
    wraps = omega arith

    enough : ltb (length payload + 5) 5 ≡ false
    enough = ground arith

    cut : length payload + 5 - 5 ≡ length payload
    cut = omega arith

-- next_message takes off the message that frame built, whatever follows it, for a payload of fewer
-- than 2^32 - 5 bytes, since the bounds of the payload are a uint32 that wraps.
pub next_message-frame :
    (typ : ℕ) (payload rest : List ℕ)
    → Fits payload
    → next_message (frame typ payload ++ rest) ≡ message typ payload rest
unfolding next_message frame
next_message-frame typ payload rest h =
    let short : length payload + 4 < 2 ^ 32 = omega arith in
    rw (mod-eq_of_lt short, bytes_of_u32 (length payload + 4) short)
      (split_at-payload typ payload rest h)

abbrev pub frames : List Message → List ℕ
frames [] = []
frames ((typ, payload) ∷ ms) = frame typ payload ++ frames ms

pub length-frame : (typ : ℕ) (payload : List ℕ) → length (frame typ payload) ≡ length payload + 5
unfolding frame
length-frame typ payload = omega arith

-- What follows a message is shorter than the buffer.
split_at_rest :
    (typ n : ℕ) (p : List ℕ) (typ' : ℕ) (payload rest : List ℕ)
    → split_at typ n p ≡ message typ' payload rest
    → rest ≡ drop ((n + 1) % 2 ^ 32 - 5) p
split_at_rest typ n p typ' payload rest h = ground arith

pub next_message_shrinks :
    (buf : List ℕ) (typ : ℕ) (payload rest : List ℕ)
    → next_message buf ≡ message typ payload rest
    → length rest < length buf
unfolding next_message
next_message_shrinks [] typ payload rest h = cc
next_message_shrinks (a ∷ []) typ payload rest h = cc
next_message_shrinks (a ∷ b ∷ []) typ payload rest h = cc
next_message_shrinks (a ∷ b ∷ c ∷ []) typ payload rest h = cc
next_message_shrinks (a ∷ b ∷ c ∷ d ∷ []) typ payload rest h = cc
next_message_shrinks (a ∷ b ∷ c ∷ d ∷ e ∷ p) typ payload rest h =
    rw (split_at_rest _ _ p typ payload rest h)
      (omega (arith, length-drop ((b * 2 ^ 24 + c * 2 ^ 16 + d * 2 ^ 8 + e + 1) % 2 ^ 32 - 5) p))
