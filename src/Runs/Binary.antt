-- ===== src/Runs/Binary.antt =====
-- A small module through the encoder and the decoder of internal/wasmpass/wasm.go.
use pglite_go.Base.{
  ℕ, ◌≡◌, ◌-◌, suc, ap, take, refl, true, false, some, List, [], ◌∷◌, ◌++◌, length, codes, arith,
  All,
}
use pglite_go.Base.Outcome.{ok}
use pglite_go.Cursor.{input}
use pglite_go.Cursor.{byte1, bytes, copy_bytes, repeat, eof}
use pglite_go.Cursor.Reads.{Reads, Reads-bind, Reads-byte1, Reads-copy_bytes, Reads-map, Reads-pure}
use pglite_go.Leb.{u32, u64, uleb, put_u32, put_u32_loop, put_name}
use pglite_go.Leb.Unsigned.{u32-put_u32, u32_code}
use pglite_go.Base.{lt_wf}
use native.Mathlib.Decide.{dec_lt}
use pglite_go.Wasm.Model.{Import, no_import, Module, no_module, k_global, k_mem}
use pglite_go.Wasm.Decode.{
  decode, parse_types, func_type, parse_funcs, parse_imports, parse_exports, parse_elems,
  parse_data, const_expr, const_expr_loop, const_operand,
}
use pglite_go.Wasm.Encode.{
  encode, encode_imports, encode_exports, encode_elems, encode_data, encode_globals, encode_import,
  encode_limits, encode_export, encode_elem, encode_data_seg,
}
use pglite_go.Wasm.RoundTrip.Imports.{IsImport, parse_imports-encode_imports}
use pglite_go.Wasm.RoundTrip.Exports.{
  IsExport, IsElem, IsData, parse_exports-encode_exports, parse_elems-encode_elems,
  parse_data-encode_data,
}
use pglite_go.Wasm.RoundTrip.Codes.{IsCode}
use pglite_go.Wasm.RoundTrip.Whole.{IsModule, decode-encode}

u32-put_u32_example :
    (put_u32 (7 ∷ []) 624485 ≡ (7 ∷ []) ++ put_u32 [] 624485)
    × (u32 (input (put_u32 [] 624485 ++ (9 ∷ [])) []) ≡ ok (624485, input (9 ∷ []) []))
    × (u64 (input (put_u32 [] 624485 ++ (9 ∷ [])) []) ≡ ok (624485, input (9 ∷ []) []))
u32-put_u32_example = u32-put_u32 624485 (7 ∷ []) (9 ∷ []) [] (omega arith)

abbrev stack_import : Import
stack_import = record no_import {
  module_name = codes "env";
  name = codes "__stack_pointer";
  kind = k_global;
  g_type = 0x7f;
  g_mutable = true;
}

abbrev memory_import : Import
memory_import = record no_import {
  module_name = codes "env";
  name = codes "memory";
  kind = k_mem;
  m_lim_min = 2;
  m_lim_max = 16384;
  m_has_max = true;
  m_shared = true;
}

abbrev zero_offset : List ℕ
zero_offset = 0x41 ∷ 0x00 ∷ 0x0b ∷ []

abbrev small : Module
small = record no_module {
  raw_types = 1 ∷ 0x60 ∷ 1 ∷ 0x7f ∷ 0 ∷ [];
  types = record { params = 0x7f ∷ []; results = [] } ∷ [];
  raw_func = 1 ∷ 0 ∷ [];
  funcs = 0 ∷ [];
  imports = stack_import ∷ memory_import ∷ [];
  exports = record { name = codes "main"; kind = 0; index = 0 } ∷ [];
  elems = record { flag = 0; offset = zero_offset; funcs = 0 ∷ [] } ∷ [];
  datas = record { flag = 0; offset = zero_offset; contents = codes "hi" } ∷ [];
  codes =
      record { local_counts = 1 ∷ []; local_types = 0x7f ∷ []; body = 0x20 ∷ 0 ∷ 0x1a ∷ 0x0b ∷ [] }
      ∷ [];
}

three : (n : ℕ) → suc (suc (suc n)) - n ≡ 3
three n = omega arith

zero_offset-Reads : Reads const_expr zero_offset zero_offset
unfolding const_expr const_expr_loop const_operand byte1 u32 uleb eof
zero_offset-Reads = record {
  at = λ rest beyond.
      ap (λ (n : ℕ). ok (take n (zero_offset ++ rest), input rest beyond)) (three (length rest));
}

stack_import-IsImport : IsImport stack_import
stack_import-IsImport = record {
  is_canonical = refl;
  known_kind = omega arith;
  short_module = omega arith;
  short_name = omega arith;
  type_idx_fits = omega arith;
  t_min_fits = omega arith;
  t_max_fits = omega arith;
  m_min_fits = omega arith;
  m_max_fits = omega arith;
}

memory_import-IsImport : IsImport memory_import
memory_import-IsImport = record {
  is_canonical = refl;
  known_kind = omega arith;
  short_module = omega arith;
  short_name = omega arith;
  type_idx_fits = omega arith;
  t_min_fits = omega arith;
  t_max_fits = omega arith;
  m_min_fits = omega arith;
  m_max_fits = omega arith;
}

imports_hold : All IsImport small.imports
imports_hold = (stack_import-IsImport, (memory_import-IsImport, tt))

exports_hold : All IsExport small.exports
exports_hold = (record { short_name = omega arith; index_fits = omega arith }, tt)

elems_hold : All IsElem small.elems
elems_hold = (
  record {
    active = refl;
    is_offset = zero_offset-Reads;
    short = omega arith;
    funcs_fit = (omega arith, tt);
  },
  tt,
)

datas_hold : All IsData small.datas
datas_hold = (record { active = refl; is_offset = zero_offset-Reads; short = omega arith }, tt)

codes_hold : All IsCode small.codes
unfolding u32_code put_u32 put_u32_loop lt_wf dec_lt
codes_hold = (
  record {
    same_length = refl;
    short_locals = omega arith;
    counts_fit = (omega arith, tt);
    short_body = omega arith;
  },
  tt,
)

parse_imports-encode_imports_example : Reads parse_imports (encode_imports small) small.imports
parse_imports-encode_imports_example = parse_imports-encode_imports small (omega arith) imports_hold

parse_exports-encode_exports_example : Reads parse_exports (encode_exports small) small.exports
parse_exports-encode_exports_example = parse_exports-encode_exports small (omega arith) exports_hold

parse_elems-encode_elems_example : Reads parse_elems (encode_elems small) small.elems
parse_elems-encode_elems_example = parse_elems-encode_elems small (omega arith) elems_hold

parse_data-encode_data_example : Reads parse_data (encode_data small) small.datas
parse_data-encode_data_example = parse_data-encode_data small (omega arith) datas_hold

u32-one : Reads u32 (1 ∷ []) 1
unfolding u32 uleb
u32-one = record { at = λ rest beyond. refl }

u32-zero : Reads u32 (0 ∷ []) 0
unfolding u32 uleb
u32-zero = record { at = λ rest beyond. refl }

type_read : Reads func_type (0x60 ∷ 1 ∷ 0x7f ∷ 0 ∷ []) (record { params = 0x7f ∷ []; results = [] })
unfolding func_type
type_read = Reads-bind _ (Reads-byte1 0x60) (
    Reads-bind _ u32-one (
      Reads-bind _ (Reads-copy_bytes (0x7f ∷ []))
        (Reads-bind _ u32-zero (Reads-map _ (Reads-copy_bytes []) (Reads-pure _)))))

types_read : Reads parse_types small.raw_types small.types
unfolding parse_types repeat
types_read =
    Reads-bind _ u32-one (record { at = λ rest beyond. rw (type_read.at rest beyond) refl })

small-IsModule : IsModule small
unfolding encode_imports encode_exports encode_elems encode_data encode_globals encode_import
    encode_limits encode_export encode_elem encode_data_seg put_name put_u32 put_u32_loop lt_wf
    dec_lt u32_code parse_types func_type parse_funcs copy_bytes bytes byte1 u32 uleb repeat
small-IsModule = record {
  types_parse = types_read;
  funcs_parse = record { at = λ rest beyond. refl };
  imports_hold = imports_hold;
  exports_hold = exports_hold;
  elems_hold = elems_hold;
  datas_hold = datas_hold;
  codes_hold = codes_hold;
  few_imports = omega arith;
  few_exports = omega arith;
  few_elems = omega arith;
  few_datas = omega arith;
  few_codes = omega arith;
  few_globals = omega arith;
  short_types = omega arith;
  short_imports = omega arith;
  short_func = omega arith;
  short_tables = omega arith;
  short_mems = omega arith;
  short_globals = omega arith;
  short_exports = omega arith;
  short_start = omega arith;
  short_elems = omega arith;
  short_data_cnt = omega arith;
  short_code = omega arith;
  short_data = omega arith;
  no_start = λ e. refl;
  no_data_cnt = λ e. refl;
}

decode-encode_example :
    (bs : List ℕ) × (encode small ≡ ok bs)
    × (decode (input bs (7 ∷ [])) ≡ ok (record small { sp_global = some 0; sp_global_set = false }))
decode-encode_example = decode-encode small (7 ∷ []) small-IsModule
