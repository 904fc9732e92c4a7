-- ===== src/Emscripten/Codec.antt =====
-- The encoding functions of emscripten/wasm.go and readLEB128U of emscripten/patch.go.
use pglite_go.Base.{
  ℕ, zero, suc, ◌+◌, ◌-◌, ◌*◌, ◌/◌, ◌%◌, ◌^◌, ◌<◌, bit_and, bit_or, List, [], ◌∷◌, ◌++◌, length,
  Bool, ltb, ◌==◌, if◌then◌else◌, ◌&&◌, ◌||◌, not, lt_wf, arith,
}
use pglite_go.Base.Outcome.{Outcome, ok, stuck, ◌>>=◌}
use mathlib.Core.Logic.{dite}
use mathlib.Core.WellFounded.{Acc}
use native.Mathlib.Decide.{dec_lt}

shift_falls : (v : ℕ) → 0 < v → v / 128 < v
shift_falls v h = omega arith

-- The loop of encodeLEB128U on a uint64.
unfoldable pub encode_loop : List ℕ → (v : ℕ) → Acc ◌<◌ v → List ℕ
unfolding shift_falls
encode_loop buf v (Acc.intro _ smaller) =
    let b = bit_and v 0x7f in
    let b' = if ltb 0 (v / 128) then bit_or b 0x80 else b in
    dite (dec_lt 0 v)
      (λ more. encode_loop (buf ++ (b' ∷ [])) (v / 128) (smaller _ (shift_falls v more))) (λ _. buf)

unfoldable pub encode_leb128_u : ℕ → List ℕ
unfolding encode_loop lt_wf dec_lt
encode_leb128_u v = if v == 0 then 0 ∷ [] else encode_loop [] v (lt_wf.apply v)

-- `v >>= 7` on an int64, given as its bit pattern.
unfoldable pub sar7_64 : ℕ → ℕ
sar7_64 v = if ltb v (2 ^ 63) then v / 128 else v / 128 + (2 ^ 64 - 2 ^ 57)

unfoldable pub s64_done : ℕ → ℕ → Bool
s64_done v b = v == 0 && bit_and b 0x40 == 0 || v == 2 ^ 64 - 1 && not (bit_and b 0x40 == 0)

-- An int64 takes at most ten rounds of encodeLEB128S.
unfoldable pub encode_signed_loop : ℕ → List ℕ → ℕ → Outcome (List ℕ)
encode_signed_loop zero buf v = stuck
encode_signed_loop (suc fuel) buf v =
    let b = bit_and v 0x7f in
    let v' = sar7_64 v in
    let rest = encode_signed_loop fuel (buf ++ (bit_or b 0x80 ∷ [])) v' in
    if s64_done v' b then ok (buf ++ (b ∷ [])) else rest

unfoldable pub encode_leb128_s : ℕ → Outcome (List ℕ)
unfolding encode_signed_loop sar7_64 s64_done
encode_leb128_s v = encode_signed_loop 10 [] v

unfoldable pub encode_section : ℕ → List ℕ → List ℕ
encode_section id payload = (id ∷ []) ++ encode_leb128_u (length payload) ++ payload

unfoldable pub encode_name : List ℕ → List ℕ
encode_name s = encode_leb128_u (length s) ++ s

-- `int64(val)` of an int32.
unfoldable pub sign_extend : ℕ → ℕ
sign_extend v = if ltb v (2 ^ 31) then v else v + (2 ^ 64 - 2 ^ 32)

-- The global section of the GOT.mem module; the globals come in the order of the map's iteration.
unfoldable pub got_globals : List ℕ → List (List ℕ × ℕ) → Outcome (List ℕ)
got_globals payload [] = ok payload
got_globals payload ((name, value) ∷ globals) = encode_leb128_s (sign_extend value) >>= λ code.
    got_globals (payload ++ (0x7f ∷ 0x01 ∷ 0x41 ∷ []) ++ code ++ (0x0b ∷ [])) globals

unfoldable pub got_exports : List ℕ → ℕ → List (List ℕ × ℕ) → List ℕ
got_exports payload i [] = payload
got_exports payload i ((name, value) ∷ globals) =
    got_exports (payload ++ encode_name name ++ (0x03 ∷ []) ++ encode_leb128_u i) (suc i) globals

unfoldable pub build_got_mem_module : List (List ℕ × ℕ) → Outcome (List ℕ)
build_got_mem_module globals =
    let header = 0x00 ∷ 0x61 ∷ 0x73 ∷ 0x6d ∷ 0x01 ∷ 0x00 ∷ 0x00 ∷ 0x00 ∷ [] in
    let count = encode_leb128_u (length globals) in
    got_globals count globals >>= λ payload.
    ok (header ++ encode_section 6 payload ++ encode_section 7 (got_exports count 0 globals))

-- readLEB128U: the value and the number of bytes; an input that ends early gives what it has.
unfoldable pub read_loop : List ℕ → ℕ → ℕ → ℕ → ℕ × ℕ
read_loop [] r s count = (r, count)
read_loop (b ∷ bs) r s count =
    let r' = bit_or r (bit_and b 0x7f * 2 ^ s % 2 ^ 64) in
    let rest = read_loop bs r' (s + 7) (suc count) in
    if bit_and b 0x80 == 0 then (r', suc count) else rest

unfoldable pub read_leb128_u : List ℕ → ℕ × ℕ
unfolding read_loop
read_leb128_u bytes = read_loop bytes 0 0 0
