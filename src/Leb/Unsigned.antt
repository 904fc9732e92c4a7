-- ===== src/Leb/Unsigned.antt =====
-- Unsigned numbers: `putU32`, `u32` and `u64` of internal/wasmpass/wasm.go.
use pglite_go.Base.{
  ℕ, ◌+◌, ◌*◌, ◌/◌, ◌%◌, ◌^◌, ◌≤◌, ◌<◌, ◌≡◌, ap, ◌∙◌, bit_and, bit_or, List, [], ◌∷◌, ◌++◌,
  append_assoc, arith, lt_wf,
}
use pglite_go.Base.Bits.{bit_or_shifted, low_seven, top_bit, set_top_bit}
use pglite_go.Base.Outcome.{ok}
use pglite_go.Cursor.{input}
use pglite_go.Cursor.{input}
use pglite_go.Cursor.Reads.{Reads}
use pglite_go.Leb.{uleb, u32, u64, put_u32, put_u32_loop, lift}
use native.Mathlib.Numerals.{towards_suc}
use native.Mathlib.Nat.{div-add-mod, mod-eq_of_lt}
use mathlib.Core.WellFounded.{Acc}

-- One more group: the byte with the top bit set, and the rest of the number.
group_byte : (v : ℕ) → bit_or (bit_and v 0x7f) 0x80 ≡ v % 128 + 128
group_byte v = ground (arith, low_seven v, set_top_bit (v % 128))

put_u32_loop-append :
    (dst : List ℕ) (v : ℕ) (w : Acc ◌<◌ v) → put_u32_loop dst v w ≡ dst ++ put_u32_loop [] v w
unfolding put_u32_loop
put_u32_loop-append dst v (Acc.intro _ smaller) =
    let b : List ℕ = bit_or (bit_and v 0x7f) 0x80 ∷ [] in
    grind (
      arith,
      λ (p : v / 128 < v). put_u32_loop-append (dst ++ b) (v / 128) (smaller (v / 128) p),
      λ (p : v / 128 < v). put_u32_loop-append b (v / 128) (smaller (v / 128) p),
      λ (w : Acc ◌<◌ (v / 128)). append_assoc dst b (put_u32_loop [] (v / 128) w),
    )

shift_seven : (s : ℕ) → 2 ^ (s + 7) ≡ 128 * 2 ^ s
shift_seven s = simp towards_suc (omega arith)

split_low : (v s : ℕ) → v * 2 ^ s ≡ v % 128 * 2 ^ s + v / 128 * 2 ^ (s + 7)
split_low v s = omega (
  arith,
  ap (λ (t : ℕ). t * 2 ^ s) (div-add-mod v 128),
  ap (λ (t : ℕ). v / 128 * t) (shift_seven s),
)

low_group : (g : ℕ) → g < 128 → (bit_and g 0x7f ≡ g) × (bit_and (g + 128) 0x7f ≡ g)
low_group g h = omega (arith, low_seven g, low_seven (g + 128))

lt_of_sum : (a b c : ℕ) → a + b < c → b < c
lt_of_sum a b c h = omega arith

-- `r |= g << s` in a word that has room.
pub add_group :
    (w g r s : ℕ) → r < 2 ^ s → r + g * 2 ^ s < 2 ^ w → bit_or r (g * 2 ^ s % 2 ^ w) ≡ r + g * 2 ^ s
add_group w g r s hr fits =
    rw (mod-eq_of_lt (lt_of_sum r (g * 2 ^ s) (2 ^ w) fits)) (bit_or_shifted s r g hr)

-- One round of the reader on a byte of group `g`, last or with the top bit set.
uleb-last :
    (w g r s : ℕ) (rest : List ℕ)
    → g < 128
    → r < 2 ^ s
    → r + g * 2 ^ s < 2 ^ w
    → uleb w (g ∷ rest) r s ≡ ok (r + g * 2 ^ s, rest)
unfolding uleb
uleb-last w g r s rest hg hr fits =
    rw ((low_group g hg).0, add_group w g r s hr fits) (ground (arith, top_bit g))

uleb-inner :
    (w g r s : ℕ) (rest : List ℕ)
    → g < 128
    → r < 2 ^ s
    → r + g * 2 ^ s < 2 ^ w
    → uleb w ((g + 128) ∷ rest) r s ≡ uleb w rest (r + g * 2 ^ s) (s + 7)
unfolding uleb
uleb-inner w g r s rest hg hr fits =
    rw ((low_group g hg).1, add_group w g r s hr fits) (ground (arith, top_bit (g + 128)))

room : (v r s : ℕ) → r < 2 ^ s → r + v % 128 * 2 ^ s < 2 ^ (s + 7)
room v r s h = let top : v % 128 * 2 ^ s ≤ 127 * 2 ^ s = grind arith in omega (arith, shift_seven s)

-- The reader takes exactly what the writer wrote, from any bit position on.
uleb-put_u32_loop :
    (w v r s : ℕ) (a : Acc ◌<◌ v) (rest : List ℕ)
    → r < 2 ^ s
    → r + v * 2 ^ s < 2 ^ w
    → uleb w (put_u32_loop [] v a ++ rest) r s ≡ ok (r + v * 2 ^ s, rest)
unfolding put_u32_loop
uleb-put_u32_loop w v r s (Acc.intro _ smaller) rest hr fits =
    let b : List ℕ = (v % 128 + 128) ∷ [] in
    grind (
      arith,
      low_seven v,
      group_byte v,
      split_low v s,
      shift_seven s,
      λ (p : v / 128 < v). put_u32_loop-append b (v / 128) (smaller (v / 128) p),
      λ (p : v / 128 < v).
          uleb-inner w (v % 128) r s (put_u32_loop [] (v / 128) (smaller (v / 128) p) ++ rest)
            (omega arith) hr (omega (arith, split_low v s)),
      λ (p : v / 128 < v).
          uleb-put_u32_loop w (v / 128) (r + v % 128 * 2 ^ s) (s + 7) (smaller (v / 128) p) rest
            (room v r s hr) (omega (arith, split_low v s)),
      uleb-last w v r s rest,
    )

-- The bytes of a number: what `put_u32` appends.
unfoldable pub u32_code : ℕ → List ℕ
u32_code v = put_u32 [] v

pub put_u32-eq-append : (dst : List ℕ) (v : ℕ) → put_u32 dst v ≡ dst ++ u32_code v
unfolding put_u32 u32_code
put_u32-eq-append dst v = put_u32_loop-append dst v (lt_wf.apply v)

pub uleb-u32_code :
    (w v : ℕ) (rest : List ℕ) → v < 2 ^ w → uleb w (u32_code v ++ rest) 0 0 ≡ ok (v, rest)
unfolding put_u32 u32_code
uleb-u32_code w v rest h =
    uleb-put_u32_loop w v 0 0 (lt_wf.apply v) rest (omega arith) (omega arith)
    ∙ ap (λ (t : ℕ). ok (t, rest)) (omega arith)

pub u32-u32_code : (v : ℕ) → v < 2 ^ 32 → Reads u32 (u32_code v) v
unfolding u32
u32-u32_code v h = record {
  at = λ rest beyond. ap (λ o. lift o beyond) (uleb-u32_code 32 v rest h);
}

pub u64-u32_code : (v : ℕ) → v < 2 ^ 64 → Reads u64 (u32_code v) v
unfolding u64
u64-u32_code v h = record {
  at = λ rest beyond. ap (λ o. lift o beyond) (uleb-u32_code 64 v rest h);
}

-- put_u32 appends to its buffer, and u32 and u64 read back every uint32 that it appended.
pub u32-put_u32 :
    (v : ℕ) (dst rest beyond : List ℕ)
    → v < 2 ^ 32
    → (put_u32 dst v ≡ dst ++ put_u32 [] v)
      × (u32 (input (put_u32 [] v ++ rest) beyond) ≡ ok (v, input rest beyond))
      × (u64 (input (put_u32 [] v ++ rest) beyond) ≡ ok (v, input rest beyond))
unfolding u32_code
u32-put_u32 v dst rest beyond h = (
  put_u32-eq-append dst v,
  (u32-u32_code v h).at rest beyond,
  (u64-u32_code v (omega arith)).at rest beyond,
)
