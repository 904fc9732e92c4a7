-- ===== src/Runs/Patches.antt =====
-- Patches of small modules.
use pglite_go.Base.{
  ◌≡◌, refl, List, [], ◌∷◌, ◌++◌, length, map, concat_map, All, arith, codes, lt_wf, bytes_eq,
}
use native.Mathlib.Decide.{dec_lt}
use pglite_go.Base.Outcome.{ok}
use pglite_go.Cursor.{input}
use pglite_go.Leb.{put_u32}
use pglite_go.Emscripten.Codec.{encode_leb128_u, encode_loop, encode_name, read_leb128_u, read_loop}
use pglite_go.Emscripten.Slice.{byte_at, bytes_at, uint_at}
use pglite_go.Emscripten.Numbers.{encode_leb128_u-put_u32, read_leb128_u-encode_leb128_u}
use pglite_go.Emscripten.Patch.{
  copy_limits, copy_type, new_mod_name, patch_wasm_imports, rewrite_entry, rewrite_import_section,
  rewrite_loop, rewrite_section, rounds,
}
use pglite_go.Emscripten.Patch.Entry.{
  Entry, func, memory, between, shared_between, imports_code, redirect, IsEntry,
}
use pglite_go.Emscripten.Patch.Rewrite.{rewrite_import_section-imports_code}
use pglite_go.Emscripten.Patch.Whole.{
  Part, imports, other, header, part_code, patched, IsPart, patch_wasm_imports-parts,
}
use pglite_go.Emscripten.Dylink.{parse_dylink}
use pglite_go.Emscripten.Dylink.Info.{info_code, parse_dylink-info}

encode_leb128_u-put_u32_example : encode_leb128_u 624485 ≡ put_u32 [] 624485
encode_leb128_u-put_u32_example = encode_leb128_u-put_u32 624485

read_leb128_u-encode_leb128_u_example :
    read_leb128_u (encode_leb128_u 624485 ++ (3 ∷ [])) ≡ (624485, length (encode_leb128_u 624485))
read_leb128_u-encode_leb128_u_example = read_leb128_u-encode_leb128_u 624485 (3 ∷ []) (omega arith)

abbrev two : List Entry
two =
    record { mod_name = codes "env"; field_name = codes "abort"; desc = func 3 }
    ∷ record {
      mod_name = codes "env";
      field_name = codes "memory";
      desc = memory (between 2 16384);
    }
    ∷ []

two-IsEntry : All IsEntry two
two-IsEntry = (
  (omega arith, omega arith, omega arith),
  ((omega arith, omega arith, (omega arith, omega arith)), tt),
)

rewrite_import_section-imports_code_example :
    rewrite_import_section (input (imports_code two ++ (9 ∷ [])) [])
    ≡ ok (imports_code (map redirect two))
rewrite_import_section-imports_code_example =
    rewrite_import_section-imports_code two (9 ∷ []) [] (omega arith) two-IsEntry

-- A memory that is shared, with a maximum, 5, which the patch does not copy.
abbrev with_shared : List Entry
with_shared =
    record { mod_name = codes "env"; field_name = codes "m"; desc = memory (shared_between 2 5) }
    ∷ []

with_shared_cut :
    rewrite_import_section (input (imports_code with_shared ++ (9 ∷ [])) [])
    ≡ ok (1 ∷ 10 ∷ codes "env.extras" ++ (1 ∷ b'm' ∷ 2 ∷ 3 ∷ 2 ∷ []))
unfolding rewrite_import_section rewrite_section rewrite_loop rewrite_entry rounds encode_leb128_u
    encode_loop lt_wf dec_lt encode_name uint_at bytes_at byte_at read_leb128_u read_loop copy_type
    copy_limits new_mod_name bytes_eq
with_shared_cut = refl

abbrev parts : List Part
parts = other 1 (1 ∷ 0x60 ∷ 0 ∷ 0 ∷ []) ∷ imports two ∷ []

parts-IsPart : All IsPart parts
unfolding encode_leb128_u encode_loop lt_wf dec_lt encode_name
parts-IsPart = ((λ e. omega (arith, e), omega arith), ((omega arith, omega arith, two-IsEntry), tt))

patch_wasm_imports-parts_example :
    patch_wasm_imports (input (header 1 0 0 0 ++ concat_map part_code parts) [])
    ≡ ok (header 1 0 0 0 ++ concat_map part_code (map patched parts))
patch_wasm_imports-parts_example = patch_wasm_imports-parts 1 0 0 0 parts [] parts-IsPart

parse_dylink-info_example :
    parse_dylink (
      header 1 0 0 0
      ++ (0
          ∷ (encode_leb128_u 20
              ++ (encode_leb128_u 8 ++ (codes "dylink.0" ++ (1 ∷ info_code 8 1048576 4 5321 []))))))
    ≡ ok (1048576, 5321)
parse_dylink-info_example =
    parse_dylink-info 1 0 0 0 20 8 1048576 4 5321 [] (omega arith) (omega arith) (omega arith)
      (omega arith) (omega arith)
