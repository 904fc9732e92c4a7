-- ===== src/Leb.antt =====
-- The LEB128 readers and writers of internal/wasmpass/wasm.go.
pub mod Unsigned
pub mod Vectors
pub mod Signed
use pglite_go.Base.{
  ℕ, zero, suc, ◌+◌, ◌-◌, ◌*◌, ◌/◌, ◌%◌, ◌^◌, ◌<◌, bit_and, bit_or, List, [], ◌∷◌, ◌++◌, length,
  Bool, ltb, ◌==◌, if◌then◌else◌, ◌&&◌, ◌||◌, not, lt_wf, arith,
}
use pglite_go.Base.Outcome.{Outcome, ok, err, panic, stuck}
use pglite_go.Cursor.{Cur, Read, ◌>>=◌, pure, bytes, input}
use mathlib.Core.Logic.{dite}
use mathlib.Core.WellFounded.{Acc}
use native.Mathlib.Decide.{dec_lt}

-- The loop of `u32` and `u64` over the unread bytes, at a result of `w` bits. A shift by `w` or
-- more gives 0, and so do the bits that leave the word.
unfoldable pub uleb : ℕ → List ℕ → ℕ → ℕ → Outcome (ℕ × List ℕ)
uleb w [] r s = panic
uleb w (x ∷ xs) r s =
    let r' = bit_or r (bit_and x 0x7f * 2 ^ s % 2 ^ w) in
    let rest = uleb w xs r' (s + 7) in if bit_and x 0x80 == 0 then ok (r', xs) else rest

-- A reader of the bytes before the length is a reader of the cursor.
abbrev pub lift {ℓ} : {A : Type ℓ} → Outcome (A × List ℕ) → List ℕ → Outcome (A × Cur)
lift (ok (a, xs)) beyond = ok (a, input xs beyond)
lift (err e) beyond = err e
lift panic beyond = panic
lift stuck beyond = stuck

unfoldable pub u32 : Read ℕ
unfolding uleb
u32 c = lift (uleb 32 c.here 0 0) c.beyond

unfoldable pub u64 : Read ℕ
unfolding uleb
u64 c = lift (uleb 64 c.here 0 0) c.beyond

-- `s64`: an int64 is its bit pattern, a number below 2 ^ 64; `-1 << s` is 2 ^ 64 - 2 ^ s.
unfoldable pub sleb : List ℕ → ℕ → ℕ → Outcome (ℕ × List ℕ)
sleb [] r s = panic
sleb (x ∷ xs) r s =
    let r' = bit_or r (bit_and x 0x7f * 2 ^ s % 2 ^ 64) in
    let s' = s + 7 in
    let rest = sleb xs r' s' in
    if bit_and x 0x80 == 0
    then ok (if ltb s' 64 && not (bit_and x 0x40 == 0) then bit_or r' (2 ^ 64 - 2 ^ s') else r', xs)
    else rest

unfoldable pub s64 : Read ℕ
unfolding sleb
s64 c = lift (sleb c.here 0 0) c.beyond

unfoldable pub name : Read (List ℕ)
unfolding u32 bytes
name = do n ← u32; w ← bytes n; pure w.here

shift_falls : (v : ℕ) → 0 < v / 128 → v / 128 < v
shift_falls v h = omega arith

unfoldable pub put_u32_loop : List ℕ → (v : ℕ) → Acc ◌<◌ v → List ℕ
unfolding shift_falls
put_u32_loop dst v (Acc.intro _ smaller) =
    let x = bit_and v 0x7f in
    dite (dec_lt 0 (v / 128))
      (λ more.
        put_u32_loop (dst ++ (bit_or x 0x80 ∷ [])) (v / 128) (smaller _ (shift_falls v more)))
      (λ _. dst ++ (x ∷ []))

unfoldable pub put_u32 : List ℕ → ℕ → List ℕ
unfolding put_u32_loop lt_wf dec_lt
put_u32 dst v = put_u32_loop dst v (lt_wf.apply v)

-- `v >>= 7` on an int32, given as its bit pattern.
unfoldable pub sar7 : ℕ → ℕ
sar7 v = if ltb v (2 ^ 31) then v / 128 else v / 128 + (2 ^ 32 - 2 ^ 25)

-- `done` of putS32, for the shifted word `v` and the group `x`.
unfoldable pub s32_done : ℕ → ℕ → Bool
s32_done v x = v == 0 && bit_and x 0x40 == 0 || v == 2 ^ 32 - 1 && not (bit_and x 0x40 == 0)

-- An int32 takes at most five rounds; the fuel is the number of rounds that are left.
unfoldable pub put_s32_loop : ℕ → List ℕ → ℕ → Outcome (List ℕ)
put_s32_loop zero dst v = stuck
put_s32_loop (suc fuel) dst v =
    let x = bit_and v 0x7f in
    let v' = sar7 v in
    let rest = put_s32_loop fuel (dst ++ (bit_or x 0x80 ∷ [])) v' in
    if s32_done v' x then ok (dst ++ (x ∷ [])) else rest

unfoldable pub put_s32 : List ℕ → ℕ → Outcome (List ℕ)
unfolding put_s32_loop sar7 s32_done
put_s32 dst v = put_s32_loop 5 dst v

-- `uint32(len(s))`
abbrev pub u32_len {ℓ} : {A : Type ℓ} → List A → ℕ
u32_len xs = length xs % 2 ^ 32

unfoldable pub put_name : List ℕ → List ℕ → List ℕ
unfolding put_u32
put_name dst s = put_u32 dst (u32_len s) ++ s
