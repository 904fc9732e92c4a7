-- ===== src/Wasm/Encode.antt =====
-- `Encode` of internal/wasmpass/wasm.go.
use pglite_go.Base.{
  ℕ, Bool, false, List, [], ◌∷◌, ◌++◌, length, foldl, ltb, ◌==◌, ◌&&◌, if◌then◌else◌,
}
use pglite_go.Base.Outcome.{Outcome, ok, panic, ◌>>=◌}
use pglite_go.Leb.{put_u32, put_name, u32_len}
use pglite_go.Wasm.Decode.{magic}
use pglite_go.Wasm.Model.{
  Import, Export, Code, ElemSeg, DataSeg, Module, k_func, k_table, k_mem, k_global,
}

unfoldable pub section : ℕ → List ℕ → List ℕ
section id payload = put_u32 (id ∷ []) (u32_len payload) ++ payload

unfoldable pub encode_limits : List ℕ → ℕ → ℕ → Bool → Bool → List ℕ
encode_limits e min max has_max shared =
    let flag : ℕ =
      if shared && has_max then 0x03 else if shared then 0x02 else if has_max then 0x01 else 0x00 in
    let e' = put_u32 (e ++ (flag ∷ [])) min in if has_max then put_u32 e' max else e'

unfoldable pub encode_import : List ℕ → Import → List ℕ
encode_import e imp =
    let e' = put_name (put_name e imp.module_name) imp.name ++ (imp.kind ∷ []) in
    if imp.kind == k_func
    then put_u32 e' imp.type_idx
    else if imp.kind == k_table
    then encode_limits (e' ++ (imp.t_elem ∷ [])) imp.t_lim_min imp.t_lim_max imp.t_has_max false
    else if imp.kind == k_mem
    then encode_limits e' imp.m_lim_min imp.m_lim_max imp.m_has_max imp.m_shared
    else if imp.kind == k_global
    then e' ++ (imp.g_type ∷ []) ++ ((if imp.g_mutable then 1 else 0) ∷ [])
    else e'

unfoldable pub encode_imports : Module → List ℕ
encode_imports m = foldl encode_import (put_u32 [] (u32_len m.imports)) m.imports

unfoldable pub encode_globals : Module → List ℕ
encode_globals m = put_u32 [] m.global_n ++ m.globals

unfoldable pub encode_export : List ℕ → Export → List ℕ
encode_export e x = put_u32 (put_name e x.name ++ (x.kind ∷ [])) x.index

unfoldable pub encode_exports : Module → List ℕ
encode_exports m = foldl encode_export (put_u32 [] (u32_len m.exports)) m.exports

unfoldable pub encode_elem : List ℕ → ElemSeg → List ℕ
encode_elem e s = foldl put_u32 (put_u32 (put_u32 e s.flag ++ s.offset) (u32_len s.funcs)) s.funcs

unfoldable pub encode_elems : Module → List ℕ
encode_elems m = foldl encode_elem (put_u32 [] (u32_len m.elems)) m.elems

unfoldable pub encode_data_seg : List ℕ → DataSeg → List ℕ
encode_data_seg e s = put_u32 (put_u32 e s.flag ++ s.offset) (u32_len s.contents) ++ s.contents

unfoldable pub encode_data : Module → List ℕ
encode_data m = foldl encode_data_seg (put_u32 [] (u32_len m.datas)) m.datas

-- A list of types shorter than the counts panics.
unfoldable pub encode_locals : List ℕ → List ℕ → List ℕ → Outcome (List ℕ)
encode_locals body [] ts = ok body
encode_locals body (n ∷ ns) [] = panic
encode_locals body (n ∷ ns) (t ∷ ts) = encode_locals (put_u32 body n ++ (t ∷ [])) ns ts

unfoldable pub encode_code_entry : List ℕ → Code → Outcome (List ℕ)
encode_code_entry e code = do
  locals ← encode_locals (put_u32 [] (u32_len code.local_counts)) code.local_counts code.local_types
  let body = locals ++ code.body
  ok (put_u32 e (u32_len body) ++ body)

unfoldable pub encode_codes : List ℕ → List Code → Outcome (List ℕ)
encode_codes e [] = ok e
encode_codes e (code ∷ codes) = do e' ← encode_code_entry e code; encode_codes e' codes

unfoldable pub encode_code : Module → Outcome (List ℕ)
encode_code m = encode_codes (put_u32 [] (u32_len m.codes)) m.codes

abbrev pub section_if : Bool → ℕ → List ℕ → List ℕ
section_if b id payload = if b then section id payload else []

-- The sections in front of the code section, which alone can panic.
unfoldable pub encode_front : Module → List ℕ
encode_front m =
    section 1 m.raw_types
    ++ section 2 (encode_imports m)
    ++ section 3 m.raw_func
    ++ section_if (ltb 0 (length m.new_tables)) 4 m.new_tables
    ++ section_if (ltb 0 (length m.new_mems)) 5 m.new_mems
    ++ section 6 (encode_globals m)
    ++ section 7 (encode_exports m)
    ++ section_if m.has_start 8 m.raw_start
    ++ section 9 (encode_elems m)
    ++ section_if m.has_data_cnt 12 m.raw_data_cnt

unfoldable pub encode : Module → Outcome (List ℕ)
encode m = do
  code ← encode_code m
  ok (
      magic
      ++ (1 ∷ 0 ∷ 0 ∷ 0 ∷ [])
      ++ encode_front m
      ++ section 10 code
      ++ section 11 (encode_data m))
