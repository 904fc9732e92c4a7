-- ===== src/Emscripten/Patch/Whole.antt =====
-- The patch of a whole module.
use pglite_go.Base.{
  ℕ, zero, suc, ◌^◌, ◌<◌, ◌≤◌, ◌≡◌, ◌≢◌, refl, sym, List, [], ◌∷◌, ◌++◌, length, map, concat_map,
  All, ltb, ◌==◌, true, false, arith, append_assoc, append-nil, length-append, bytes_eq,
}
use pglite_go.Base.Outcome.{ok}
use pglite_go.Cursor.{input}
use pglite_go.Emscripten.Codec.{encode_leb128_u}
use pglite_go.Emscripten.Takes.{Takes, Takes-bind, Takes-byte_at, Takes-uint_at, Takes-slice_at}
use pglite_go.Emscripten.Patch.{patch_section, patch_loop, patch_wasm_imports, value_of}
use pglite_go.Emscripten.Patch.Entry.{Entry, imports_code, redirect, IsEntry}
use pglite_go.Emscripten.Patch.Rewrite.{rewrite_import_section-imports_code}

-- A section: the imports, or the bytes of another one with its id.
pub data Part : Type 0 where
  imports : List Entry → Part
  other : ℕ → List ℕ → Part

abbrev pub section_code : ℕ → List ℕ → List ℕ
section_code id payload = (id ∷ []) ++ (encode_leb128_u (length payload) ++ payload)

abbrev pub part_code : Part → List ℕ
part_code (imports es) = section_code 2 (imports_code es)
part_code (other id payload) = section_code id payload

abbrev pub patched : Part → Part
patched (imports es) = imports (map redirect es)
patched (other id payload) = other id payload

abbrev pub IsPart : Part → Type 0
IsPart (imports es) = (length es < 2 ^ 63) × (length (imports_code es) < 2 ^ 64) × All IsEntry es
IsPart (other id payload) = (id ≢ 2) × (length payload < 2 ^ 64)

abbrev pub header : ℕ → ℕ → ℕ → ℕ → List ℕ
header a b c d = 0x00 ∷ 0x61 ∷ 0x73 ∷ 0x6d ∷ a ∷ b ∷ c ∷ d ∷ []

Takes-patch_section :
    (p : Part) (result : List ℕ)
    → IsPart p
    → Takes (patch_section result) (part_code p) (result ++ part_code (patched p))
unfolding patch_section
Takes-patch_section (imports es) result (short, size, h) = Takes-bind _ (Takes-byte_at 2) (
    Takes-bind _ (Takes-uint_at _ size) (
      Takes-slice_at (imports_code es) _ (λ beyond c p.
        rw
          (
            sym (append-nil (imports_code es)),
            rewrite_import_section-imports_code es [] beyond short h,
          )
          (simp append_assoc))))
Takes-patch_section (other id payload) result (differs, size) =
    let e : (id == 2) ≡ false = ground (arith, differs) in
    Takes-bind _ (Takes-byte_at id) (
      Takes-bind _ (Takes-uint_at _ size)
        (Takes-slice_at payload _ (λ beyond c p. rw e (simp append_assoc))))

part_code-nonempty : (p : Part) → 0 < length (part_code p)
part_code-nonempty (imports es) = omega arith
part_code-nonempty (other id payload) = omega arith

at_end-false : (pre : List ℕ) → ltb (length pre) (length (pre ++ [])) ≡ false
at_end-false pre = ground (arith, length-append pre [])

patch_loop-parts :
    (ps : List Part) (fuel : ℕ) (result pre beyond : List ℕ)
    → length ps ≤ fuel
    → All IsPart ps
    → value_of (patch_loop fuel result (input (pre ++ concat_map part_code ps) beyond) (length pre))
      ≡ ok (result ++ concat_map part_code (map patched ps))
unfolding patch_loop
patch_loop-parts [] zero result pre beyond le h = rw (at_end-false pre, append-nil result) refl
patch_loop-parts [] (suc fuel) result pre beyond le h =
    rw (at_end-false pre, append-nil result) refl
patch_loop-parts (p ∷ ps) zero result pre beyond le h = absurd (omega (arith, le))
patch_loop-parts (p ∷ ps) (suc fuel) result pre beyond le (h, hs) =
    let more = concat_map part_code ps in
    let inside : ltb (length pre) (length (pre ++ (part_code p ++ more))) ≡ true = ground (
      arith,
      length-append pre (part_code p ++ more),
      length-append (part_code p) more,
      part_code-nonempty p,
    ) in
    rw
      (
        inside,
        (Takes-patch_section p result h).at pre more beyond,
        sym (append_assoc pre (part_code p) more),
        sym (append_assoc result (part_code (patched p)) (concat_map part_code (map patched ps))),
      )
      (patch_loop-parts ps fuel (result ++ part_code (patched p)) (pre ++ part_code p) beyond
        (omega (arith, le)) hs)

parts-le : (ps : List Part) → length ps ≤ length (concat_map part_code ps)
parts-le [] = omega arith
parts-le (p ∷ ps) = omega (
  arith,
  parts-le ps,
  part_code-nonempty p,
  length-append (part_code p) (concat_map part_code ps),
)

-- A module in its sections, with its sizes, counts and limits written as encodeLEB128U writes
-- them, is patched in its import sections alone, where the module name env becomes env.extras for
-- what is not a function; the sections keep their order and the others their bytes, and the patch
-- returns, for sections and imports whose sizes fit their fields (fewer than 2^63 imports, numbers
-- below 2^64), and imports of the four kinds (function, table, memory, global) whose limits have
-- the flags 0, 1 or 2: of flag 3, a shared memory with a maximum, the patch does not read the
-- maximum.
pub patch_wasm_imports-parts :
    (a b c d : ℕ) (ps : List Part) (beyond : List ℕ)
    → All IsPart ps
    → patch_wasm_imports (input (header a b c d ++ concat_map part_code ps) beyond)
      ≡ ok (header a b c d ++ concat_map part_code (map patched ps))
unfolding patch_wasm_imports bytes_eq
patch_wasm_imports-parts a b c d ps beyond h =
    let pre = header a b c d in
    let sections = concat_map part_code ps in
    let long : ltb (length (pre ++ sections)) 8 ≡ false =
      ground (arith, length-append pre sections) in
    rw long (
      patch_loop-parts ps (length (pre ++ sections)) pre pre beyond
        (omega (arith, parts-le ps, length-append pre sections)) h)
