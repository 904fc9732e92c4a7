-- ===== src/Leb/Signed.antt =====
-- The rounds of `putS32` of internal/wasmpass/wasm.go.
use pglite_go.Base.{
  ℕ, zero, suc, ◌+◌, ◌*◌, ◌/◌, ◌%◌, ◌^◌, ◌≤◌, ◌<◌, ◌≡◌, refl, List, [], ◌∷◌, ◌++◌, true, Bool-cases,
  ◌⊎◌, inl, inr, bit_and, bit_or, ltb, arith,
}
use pglite_go.Base.Bits.{low_seven, sign_bit}
use pglite_go.Base.Outcome.{ok}
use pglite_go.Leb.{sar7, s32_done, put_s32_loop, put_s32}

-- The word of a number of absolute value about `b`.
Small : ℕ → ℕ → Type 0
Small b v = (v < b) ⊎ ((2 ^ 32 ≤ v + b) × (v < 2 ^ 32))

sar7-Small : (b v : ℕ) → b ≤ 2 ^ 31 → Small b v → Small ((b + 127) / 128) (sar7 v)
unfolding Small sar7
sar7-Small b v h (inl less) = inl (ground (arith, h, less))
sar7-Small b v h (inr (big, word)) =
    inr (ground (arith, h, big, word), ground (arith, h, big, word))

s32_done-Small : (v : ℕ) → Small 64 v → s32_done (sar7 v) (bit_and v 0x7f) ≡ true
unfolding Small sar7 s32_done
s32_done-Small v (inl less) = ground (arith, less, low_seven v, sign_bit (v % 128))
s32_done-Small v (inr (big, word)) = ground (arith, big, word, low_seven v, sign_bit (v % 128))

Small-mono : (b d v : ℕ) → b ≤ d → Small b v → Small d v
unfolding Small
Small-mono b d v h (inl less) = inl (omega (arith, h, less))
Small-mono b d v h (inr (big, word)) = inr (omega (arith, h, big), word)

put_s32_loop-ends :
    (fuel b v : ℕ) (dst : List ℕ)
    → b ≤ 2 ^ 31
    → b ≤ 64 * 128 ^ fuel
    → Small b v
    → (out : List ℕ) × (put_s32_loop (suc fuel) dst v ≡ ok out)
unfolding put_s32_loop
put_s32_loop-ends zero b v dst h k s = (
  dst ++ (bit_and v 0x7f ∷ []),
  rw (s32_done-Small v (Small-mono b 64 v (omega (arith, k)) s)) refl,
)
put_s32_loop-ends (suc fuel) b v dst h k s =
    let (out, e) =
      put_s32_loop-ends fuel ((b + 127) / 128) (sar7 v) (dst ++ (bit_or (bit_and v 0x7f) 0x80 ∷ []))
        (omega (arith, h)) (omega (arith, k)) (sar7-Small b v h s) in
    elim (Bool-cases (s32_done (sar7 v) (bit_and v 0x7f))) [
      | inl last ↦ (dst ++ (bit_and v 0x7f ∷ []), rw last refl)
      | inr more ↦ (out, rw more e)
    ]

pub put_s32-total : (dst : List ℕ) (v : ℕ) → v < 2 ^ 32 → (out : List ℕ) × (put_s32 dst v ≡ ok out)
unfolding put_s32 Small
put_s32-total dst v h = put_s32_loop-ends 4 (2 ^ 31) v dst (omega arith) (omega arith) (halves v h)
  where
    halves : (v : ℕ) → v < 2 ^ 32 → (v < 2 ^ 31) ⊎ ((2 ^ 32 ≤ v + 2 ^ 31) × (v < 2 ^ 32))
    halves v h = elim (Bool-cases (ltb v (2 ^ 31))) [
      | inl less ↦ inl (ground (arith, less))
      | inr big ↦ inr (ground (arith, big), h)
    ]
