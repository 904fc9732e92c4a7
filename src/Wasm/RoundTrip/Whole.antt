-- ===== src/Wasm/RoundTrip/Whole.antt =====
-- A whole module: `Decode` of what `Encode` wrote.
use pglite_go.Base.{
  ℕ, suc, ◌≡◌, refl, false, List, [], ◌∷◌, ◌++◌, length, append_assoc, append-nil, arith, All, ltb,
  some,
}
use pglite_go.Base.Outcome.{ok}
use pglite_go.Cursor.{input}
use pglite_go.Cursor.Reads.{Reads}
use pglite_go.Leb.Unsigned.{u32-u32_code, put_u32-eq-append}
use pglite_go.Leb.Vectors.{IsShort, vec_code}
use pglite_go.Wasm.Model.{Module, no_module}
use pglite_go.Wasm.Decode.{decode_section, decode, parsed, raw_globals, parse_types, parse_funcs}
use pglite_go.Base.{bytes_eq}
use pglite_go.Wasm.Encode.{
  encode, encode_front, encode_imports, encode_globals, encode_exports, encode_elems, encode_data,
}
use pglite_go.Wasm.RoundTrip.Imports.{IsImport, IsU32, parse_imports-encode_imports}
use pglite_go.Wasm.RoundTrip.Exports.{
  IsExport, IsElem, IsData, parse_exports-encode_exports, parse_elems-encode_elems,
  parse_data-encode_data,
}
use pglite_go.Wasm.RoundTrip.Codes.{IsCode, code_code, parse_code-code_code, encode_code-eq}
use pglite_go.Wasm.RoundTrip.Sections.{
  section_code, section-eq, section_code_if, parsed-Reads, Decodes, Decodes-end, Decodes-section,
  Decodes-if,
}

-- The raw sections parse to the fields beside them, every count and index is a uint32, every
-- payload is shorter than 4 GiB, and what is not written is empty.
pub record IsModule (m : Module) : Type 0 where
  pub types_parse : Reads parse_types m.raw_types m.types
  pub funcs_parse : Reads parse_funcs m.raw_func m.funcs
  pub imports_hold : All IsImport m.imports
  pub exports_hold : All IsExport m.exports
  pub elems_hold : All IsElem m.elems
  pub datas_hold : All IsData m.datas
  pub codes_hold : All IsCode m.codes
  pub few_imports : IsShort m.imports
  pub few_exports : IsShort m.exports
  pub few_elems : IsShort m.elems
  pub few_datas : IsShort m.datas
  pub few_codes : IsShort m.codes
  pub few_globals : IsU32 m.global_n
  pub short_types : IsShort m.raw_types
  pub short_imports : IsShort (encode_imports m)
  pub short_func : IsShort m.raw_func
  pub short_tables : IsShort m.new_tables
  pub short_mems : IsShort m.new_mems
  pub short_globals : IsShort (encode_globals m)
  pub short_exports : IsShort (encode_exports m)
  pub short_start : IsShort m.raw_start
  pub short_elems : IsShort (encode_elems m)
  pub short_data_cnt : IsShort m.raw_data_cnt
  pub short_code : IsShort (vec_code code_code m.codes)
  pub short_data : IsShort (encode_data m)
  pub no_start : m.has_start ≡ false → m.raw_start ≡ []
  pub no_data_cnt : m.has_data_cnt ≡ false → m.raw_data_cnt ≡ []

-- The module after each section.
abbrev at1 : Module → Module
at1 m = record no_module { raw_types = m.raw_types; types = m.types }

abbrev at2 : Module → Module
at2 m = record (at1 m) { imports = m.imports }

abbrev at3 : Module → Module
at3 m = record (at2 m) { raw_func = m.raw_func; funcs = m.funcs }

abbrev at4 : Module → Module
at4 m = record (at3 m) { new_tables = m.new_tables }

abbrev at5 : Module → Module
at5 m = record (at4 m) { new_mems = m.new_mems }

abbrev at6 : Module → Module
at6 m = record (at5 m) { global_n = m.global_n; globals = m.globals }

abbrev at7 : Module → Module
at7 m = record (at6 m) { exports = m.exports }

abbrev at8 : Module → Module
at8 m = record (at7 m) { raw_start = m.raw_start; has_start = m.has_start }

abbrev at9 : Module → Module
at9 m = record (at8 m) { elems = m.elems }

abbrev at12 : Module → Module
at12 m = record (at9 m) { raw_data_cnt = m.raw_data_cnt; has_data_cnt = m.has_data_cnt }

abbrev at10 : Module → Module
at10 m = record (at12 m) { codes = m.codes }

abbrev at11 : Module → Module
at11 m = record (at10 m) { datas = m.datas }

raw_globals-encode_globals :
    (m : Module) (f : ℕ × List ℕ → Module) (beyond : List ℕ)
    → IsU32 m.global_n
    → parsed (raw_globals (input (encode_globals m) beyond)) f ≡ ok (f (m.global_n, m.globals))
unfolding raw_globals encode_globals
raw_globals-encode_globals m f beyond h =
    rw (put_u32-eq-append [] m.global_n, (u32-u32_code m.global_n h).at m.globals beyond) refl

empty_of : (xs : List ℕ) → ltb 0 (length xs) ≡ false → [] ≡ xs
empty_of [] h = refl
empty_of (x ∷ xs) h = absurd (ground arith)

-- What is written from each section on.
abbrev code11 : Module → List ℕ
code11 m = section_code 11 (encode_data m) ++ []

abbrev code10 : Module → List ℕ
code10 m = section_code 10 (vec_code code_code m.codes) ++ code11 m

abbrev code12 : Module → List ℕ
code12 m = section_code_if m.has_data_cnt 12 m.raw_data_cnt ++ code10 m

abbrev code9 : Module → List ℕ
code9 m = section_code 9 (encode_elems m) ++ code12 m

abbrev code8 : Module → List ℕ
code8 m = section_code_if m.has_start 8 m.raw_start ++ code9 m

abbrev code7 : Module → List ℕ
code7 m = section_code 7 (encode_exports m) ++ code8 m

abbrev code6 : Module → List ℕ
code6 m = section_code 6 (encode_globals m) ++ code7 m

abbrev code5 : Module → List ℕ
code5 m = section_code_if (ltb 0 (length m.new_mems)) 5 m.new_mems ++ code6 m

abbrev code4 : Module → List ℕ
code4 m = section_code_if (ltb 0 (length m.new_tables)) 4 m.new_tables ++ code5 m

abbrev code3 : Module → List ℕ
code3 m = section_code 3 m.raw_func ++ code4 m

abbrev code2 : Module → List ℕ
code2 m = section_code 2 (encode_imports m) ++ code3 m

abbrev code1 : Module → List ℕ
code1 m = section_code 1 m.raw_types ++ code2 m

module _ (m : Module) (h : IsModule m) (beyond : List ℕ) where
  from10 : Decodes (code10 m) beyond (at12 m) (ok (at11 m))
  unfolding decode_section
  from10 =
      Decodes-section 10 (vec_code code_code m.codes) (at10 m) h.short_code
        (parsed-Reads _ _ (parse_code-code_code m h.few_codes h.codes_hold))
        (Decodes-section 11 (encode_data m) (at11 m) h.short_data
          (parsed-Reads _ _ (parse_data-encode_data m h.few_datas h.datas_hold))
          (Decodes-end beyond (at11 m)))

  from12 : Decodes (code12 m) beyond (at9 m) (ok (at11 m))
  unfolding decode_section
  from12 =
      Decodes-if m.has_data_cnt 12 m.raw_data_cnt (at12 m) h.short_data_cnt (λ e. rw e refl)
        (λ e. rw (e, h.no_data_cnt e) refl) from10

  from9 : Decodes (code9 m) beyond (at8 m) (ok (at11 m))
  unfolding decode_section
  from9 =
      Decodes-section 9 (encode_elems m) (at9 m) h.short_elems
        (parsed-Reads _ _ (parse_elems-encode_elems m h.few_elems h.elems_hold)) from12

  from8 : Decodes (code8 m) beyond (at7 m) (ok (at11 m))
  unfolding decode_section
  from8 =
      Decodes-if m.has_start 8 m.raw_start (at8 m) h.short_start (λ e. rw e refl)
        (λ e. rw (e, h.no_start e) refl) from9

  from6 : Decodes (code6 m) beyond (at5 m) (ok (at11 m))
  unfolding decode_section
  from6 =
      Decodes-section 6 (encode_globals m) (at6 m) h.short_globals
        (raw_globals-encode_globals m (λ g. record (at5 m) { global_n = g.0; globals = g.1 }) _
          h.few_globals)
        (Decodes-section 7 (encode_exports m) (at7 m) h.short_exports
          (parsed-Reads _ _ (parse_exports-encode_exports m h.few_exports h.exports_hold)) from8)

  from4 : Decodes (code4 m) beyond (at3 m) (ok (at11 m))
  unfolding decode_section
  from4 =
      Decodes-if (ltb 0 (length m.new_tables)) 4 m.new_tables (at4 m) h.short_tables (λ e. refl)
        (λ e. rw (← empty_of m.new_tables e) refl)
        (Decodes-if (ltb 0 (length m.new_mems)) 5 m.new_mems (at5 m) h.short_mems (λ e. refl)
          (λ e. rw (← empty_of m.new_mems e) refl) from6)

  from1 : Decodes (code1 m) beyond no_module (ok (at11 m))
  unfolding decode_section
  from1 = Decodes-section 1 m.raw_types (at1 m) h.short_types (parsed-Reads _ _ h.types_parse) (
      Decodes-section 2 (encode_imports m) (at2 m) h.short_imports
        (parsed-Reads _ _ (parse_imports-encode_imports m h.few_imports h.imports_hold))
        (Decodes-section 3 m.raw_func (at3 m) h.short_func (parsed-Reads _ _ h.funcs_parse) from4))

-- The file that `encode` writes for a module.
abbrev pub file : Module → List ℕ
file m = 0x00 ∷ 0x61 ∷ 0x73 ∷ 0x6d ∷ 1 ∷ 0 ∷ 0 ∷ 0 ∷ code1 m

encode-eq-file : (m : Module) → IsModule m → encode m ≡ ok (file m)
unfolding encode encode_front
encode-eq-file m h =
    rw (encode_code-eq m h.codes_hold) (simp (section-eq, append_assoc, append-nil))

not_short : (m : Module) → ltb (length (file m)) 8 ≡ false
not_short m = ground arith

decode-file :
    (m : Module) (beyond : List ℕ) → IsModule m → decode (input (file m) beyond) ≡ ok (at11 m)
unfolding decode bytes_eq
decode-file m beyond h =
    rw (not_short m) ((from1 m h beyond).run (suc (length (file m))) (omega arith))

-- For every module that holds what IsModule lists (raw and parsed types and functions that agree,
-- canonical imports, active segments of one constant expression, sections below 4 GiB), encode
-- returns a file, and decode of that file, with anything behind it in the buffer, returns the
-- module with the cached index of the stack pointer forgotten.
pub decode-encode :
    (m : Module) (beyond : List ℕ)
    → IsModule m
    → (bs : List ℕ) × (encode m ≡ ok bs)
      × (decode (input bs beyond) ≡ ok (record m { sp_global = some 0; sp_global_set = false }))
decode-encode m beyond h = (file m, encode-eq-file m h, decode-file m beyond h)
