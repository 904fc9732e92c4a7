-- ===== src/Emscripten/Patch.antt =====
-- PatchWasmImports of emscripten/patch.go.
pub mod Entry
pub mod Rewrite
pub mod Whole
use pglite_go.Base.{
  ℕ, zero, suc, ◌+◌, ◌^◌, List, [], ◌∷◌, ◌++◌, length, take, ltb, ◌==◌, not, ◌&&◌, if◌then◌else◌,
  codes, bytes_eq,
}
use pglite_go.Base.Outcome.{Outcome, ok, err, panic, stuck, too_short, bad_magic}
use pglite_go.Cursor.{Cur, input}
use pglite_go.Emscripten.Codec.{encode_leb128_u, encode_name}
use pglite_go.Emscripten.Slice.{At, ◌>>=◌, ◌>>◌, pure, uint_at, bytes_at, byte_at, slice_at}

-- newModName
unfoldable pub new_mod_name : List ℕ → ℕ → List ℕ
new_mod_name mod_name kind =
    if bytes_eq mod_name (codes "env") && not (kind == 0) then codes "env.extras" else mod_name

-- A table's or a memory's limits, appended to the result.
unfoldable pub copy_limits : List ℕ → At (List ℕ)
copy_limits result = do
  flag ← byte_at
  least ← uint_at
  if flag == 1
      then (do
        most ← uint_at
        pure (result ++ (flag ∷ []) ++ encode_leb128_u least ++ encode_leb128_u most))
      else pure (result ++ (flag ∷ []) ++ encode_leb128_u least)

-- The switch on the kind.
unfoldable pub copy_type : ℕ → List ℕ → At (List ℕ)
copy_type kind result =
    if kind == 0
    then (do type_idx ← uint_at; pure (result ++ encode_leb128_u type_idx))
    else if kind == 1
    then (do elem_type ← byte_at; copy_limits (result ++ (elem_type ∷ [])))
    else if kind == 2
    then copy_limits result
    else if kind == 3
    then (do
      val_type ← byte_at
      mutable_flag ← byte_at
      pure (result ++ (val_type ∷ mutable_flag ∷ [])))
    else pure result

unfoldable pub rewrite_entry : List ℕ → At (List ℕ)
rewrite_entry result = do
  mod_len ← uint_at
  mod_name ← bytes_at mod_len
  field_len ← uint_at
  field_name ← bytes_at field_len
  kind ← byte_at
  copy_type kind
      (result ++ encode_name (new_mod_name mod_name kind) ++ encode_name field_name ++ (kind ∷ []))

unfoldable pub rewrite_loop : ℕ → List ℕ → At (List ℕ)
rewrite_loop zero result = pure result
rewrite_loop (suc n) result = do result' ← rewrite_entry result; rewrite_loop n result'

-- `int(numImports)`, as the number of rounds: a negative one gives none.
unfoldable pub rounds : ℕ → ℕ
rounds n = if ltb n (2 ^ 63) then n else 0

unfoldable pub rewrite_section : At (List ℕ)
rewrite_section = do n ← uint_at; rewrite_loop (rounds n) (encode_leb128_u n)

abbrev pub value_of : Outcome (List ℕ × ℕ) → Outcome (List ℕ)
value_of (ok (result, p)) = ok result
value_of (err e) = err e
value_of panic = panic
value_of stuck = stuck

-- rewriteImportSection
unfoldable pub rewrite_import_section : Cur → Outcome (List ℕ)
rewrite_import_section c = value_of (rewrite_section c 0)

-- A computation that does not read.
abbrev pub lift : Outcome (List ℕ) → At (List ℕ)
lift (ok xs) c p = ok (xs, p)
lift (err e) c p = err e
lift panic c p = panic
lift stuck c p = stuck

-- One section, appended to the result.
unfoldable pub patch_section : List ℕ → At (List ℕ)
patch_section result = do
  id ← byte_at
  size ← uint_at
  section ← slice_at size
  if id == 2
      then (do
        new_section ← lift (rewrite_import_section section)
        pure (result ++ (id ∷ []) ++ encode_leb128_u (length new_section) ++ new_section))
      else pure (result ++ (id ∷ []) ++ encode_leb128_u size ++ section.here)

-- A round takes at least one byte, so the length of the input is fuel enough.
unfoldable pub patch_loop : ℕ → List ℕ → At (List ℕ)
patch_loop zero result c p = if ltb p (length c.here) then stuck else ok (result, p)
patch_loop (suc fuel) result c p =
    let next : At (List ℕ) = (do result' ← patch_section result; patch_loop fuel result') in
    if ltb p (length c.here) then next c p else ok (result, p)

unfoldable pub patch_wasm_imports : Cur → Outcome (List ℕ)
patch_wasm_imports c =
    if ltb (length c.here) 8
    then err too_short
    else if bytes_eq (take 4 c.here) (0x00 ∷ 0x61 ∷ 0x73 ∷ 0x6d ∷ [])
    then value_of (patch_loop (length c.here) (take 8 c.here) c 8)
    else err bad_magic
