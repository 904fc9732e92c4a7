-- ===== src/Emscripten/Numbers.antt =====
-- The unsigned numbers of emscripten/wasm.go and emscripten/patch.go, against those of
-- internal/wasmpass/wasm.go.
use pglite_go.Base.{
  ℕ, suc, ◌+◌, ◌-◌, ◌*◌, ◌/◌, ◌%◌, ◌^◌, ◌<◌, ◌≡◌, ap, sym, ◌∙◌, bit_and, bit_or, List, [], ◌∷◌,
  ◌++◌, length, length-append, arith, lt_wf, ◌==◌, Bool-cases, inl, inr,
}
use pglite_go.Base.Bits.{low_seven}
use pglite_go.Base.Outcome.{Outcome, ok}
use pglite_go.Leb.{uleb, put_u32, put_u32_loop}
use pglite_go.Leb.Unsigned.{u32_code, uleb-u32_code}
use pglite_go.Emscripten.Codec.{encode_loop, encode_leb128_u, read_loop, read_leb128_u}
use mathlib.Core.WellFounded.{Acc}

ok-injective :
    {a b : ℕ} {xs ys : List ℕ}
    → ◌≡◌ {A = Outcome (ℕ × List ℕ)} (ok (a, xs)) (ok (b, ys))
    → (a ≡ b) × (xs ≡ ys)
ok-injective e = (cc e, cc e)

encode_loop-zero : (buf : List ℕ) (v : ℕ) (a : Acc ◌<◌ v) → v ≡ 0 → encode_loop buf v a ≡ buf
unfolding encode_loop
encode_loop-zero buf v (Acc.intro _ smaller) e = grind arith

encode_loop-put_u32_loop :
    (buf : List ℕ) (v : ℕ) (a a' : Acc ◌<◌ v) → 0 < v → encode_loop buf v a ≡ put_u32_loop buf v a'
unfolding encode_loop put_u32_loop
encode_loop-put_u32_loop buf v (Acc.intro _ smaller) (Acc.intro _ smaller') h =
    let x = bit_and v 0x7f in
    grind (
      arith,
      λ (p : v / 128 < v) (q : v / 128 < v).
          encode_loop-put_u32_loop (buf ++ (bit_or x 0x80 ∷ [])) (v / 128) (smaller (v / 128) p)
            (smaller' (v / 128) q),
      λ (p : v / 128 < v). encode_loop-zero (buf ++ (x ∷ [])) (v / 128) (smaller (v / 128) p),
    )

put_u32_loop-zero :
    (buf : List ℕ) (v : ℕ) (a : Acc ◌<◌ v) → v ≡ 0 → put_u32_loop buf v a ≡ buf ++ (0 ∷ [])
unfolding put_u32_loop
put_u32_loop-zero buf v (Acc.intro _ smaller) e = grind (arith, low_seven v)

-- encodeLEB128U writes the bytes that putU32 writes.
pub encode_leb128_u-put_u32 : (v : ℕ) → encode_leb128_u v ≡ put_u32 [] v
unfolding encode_leb128_u put_u32
encode_leb128_u-put_u32 v = elim (Bool-cases (v == 0)) [
  | inl e ↦ rw e (sym (put_u32_loop-zero [] v (lt_wf.apply v) (ground arith)))
  | inr e ↦ rw e (encode_loop-put_u32_loop [] v (lt_wf.apply v) (lt_wf.apply v) (ground arith))
]

uleb_shortens :
    (xs : List ℕ) (r s : ℕ) {v : ℕ} {rest : List ℕ}
    → uleb 64 xs r s ≡ ok (v, rest)
    → length rest < length xs
unfolding uleb
uleb_shortens [] r s h = absurd (cc h)
uleb_shortens (x ∷ xs) r s h = elim (Bool-cases (bit_and x 0x80 == 0)) [
  | inl e ↦ omega (arith, ap length (ok-injective (rw e at h)).1)
  | inr e ↦ omega (arith, uleb_shortens xs _ _ (rw e at h))
]

-- readLEB128U agrees with the reader of internal/wasmpass where that one finds the last byte.
read_loop-uleb :
    (xs : List ℕ) (r s count : ℕ) {v : ℕ} {rest : List ℕ}
    → uleb 64 xs r s ≡ ok (v, rest)
    → read_loop xs r s count ≡ (v, count + (length xs - length rest))
unfolding uleb read_loop
read_loop-uleb [] r s count h = absurd (cc h)
read_loop-uleb (x ∷ xs) r s count {v = v} {rest = rest} h =
    let r' = bit_or r (bit_and x 0x7f * 2 ^ s % 2 ^ 64) in
    elim (Bool-cases (bit_and x 0x80 == 0)) [
      | inl e ↦ rw e (last (rw e at h))
      | inr e ↦ rw e (
          let h' : uleb 64 xs r' (s + 7) ≡ ok (v, rest) = rw e at h in
          read_loop-uleb xs r' (s + 7) (suc count) h'
          ∙ ap (λ (n : ℕ). (v, n)) (omega (arith, uleb_shortens xs r' (s + 7) h')))
    ]
  where
    last :
        {r' : ℕ}
        → ◌≡◌ {A = Outcome (ℕ × List ℕ)} (ok (r', xs)) (ok (v, rest))
        → ◌≡◌ {A = ℕ × ℕ} (r', suc count) (v, count + (suc (length xs) - length rest))
    last e =
        let (p, q) = ok-injective e in
        ap (λ (a : ℕ). (a, suc count)) p ∙ ap (λ (n : ℕ). (v, n)) (omega (arith, ap length q))

-- readLEB128U reads back every uint64 that encodeLEB128U wrote, and counts its bytes.
pub read_leb128_u-encode_leb128_u :
    (v : ℕ) (rest : List ℕ)
    → v < 2 ^ 64
    → read_leb128_u (encode_leb128_u v ++ rest) ≡ (v, length (encode_leb128_u v))
unfolding read_leb128_u u32_code
read_leb128_u-encode_leb128_u v rest h =
    let bs = put_u32 [] v in
    rw (encode_leb128_u-put_u32 v) (
      read_loop-uleb (bs ++ rest) 0 0 0 (uleb-u32_code 64 v rest h)
      ∙ ap (λ (n : ℕ). (v, n)) (omega (arith, length-append bs rest)))
