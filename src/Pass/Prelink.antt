-- ===== src/Pass/Prelink.antt =====
-- `Prelink` of internal/wasmpass/passes.go.
pub mod Kept
use pglite_go.Base.{
  ℕ, ◌+◌, ◌%◌, ◌^◌, Bool, true, false, Option, none, some, List, [], ◌∷◌, ◌++◌, if◌then◌else◌, ◌==◌,
  codes,
}
use pglite_go.Base.Outcome.{Outcome, ok, panic, ◌>>=◌}
use pglite_go.Leb.{put_u32, put_s32}
use pglite_go.Wasm.Model.{
  Import, ElemSeg, DataSeg, Module, k_mem, k_table, k_global, global_index_of_import,
}
use pglite_go.Wasm.Encode.{encode_limits}
use pglite_go.Pass.Config.{Config, base_global}

unfoldable pub encode_mem_section : ℕ → ℕ → Bool → Bool → List ℕ
encode_mem_section min max has_max shared = encode_limits (put_u32 [] 1) min max has_max shared

unfoldable pub encode_table_section : ℕ → ℕ → ℕ → Bool → List ℕ
encode_table_section elem min max has_max =
    encode_limits (put_u32 [] 1 ++ (elem ∷ [])) min max has_max false

-- The variables of the loop over the imports, with the two synthesized sections.
pub record Linked : Type 0 where
  pub kept : List Import
  pub new_globals : List ℕ
  pub new_global_n : ℕ
  pub mems : List ℕ
  pub tables : List ℕ

abbrev pub keep_import : Linked → Import → Linked
keep_import l imp = record l { kept = l.kept ++ (imp ∷ []) }

-- A global of the base set becomes a constant.
unfoldable pub internalize : Linked → Import → ℕ → Outcome Linked
internalize l imp v = do
  gs ← put_s32 (l.new_globals ++ (imp.g_type ∷ (if imp.g_mutable then 1 else 0) ∷ 0x41 ∷ [])) v
  ok (record l { new_globals = gs ++ (0x0b ∷ []); new_global_n = l.new_global_n + 1 })

abbrev pub link_global : Linked → Import → Option ℕ → Outcome Linked
link_global l imp none = ok (keep_import l imp)
link_global l imp (some v) = internalize l imp v

unfoldable pub link_import : Config → Linked → Import → Outcome Linked
link_import cfg l imp =
    if imp.kind == k_mem
    then ok (record l {
      mems = encode_mem_section imp.m_lim_min imp.m_lim_max imp.m_has_max imp.m_shared;
    })
    else if imp.kind == k_table
    then ok (record l {
      tables = encode_table_section imp.t_elem imp.t_lim_min imp.t_lim_max imp.t_has_max;
    })
    else if imp.kind == k_global
    then link_global l imp (base_global cfg.base_globals imp.name)
    else ok (keep_import l imp)

unfoldable pub link_loop : Config → Linked → List Import → Outcome Linked
link_loop cfg l [] = ok l
link_loop cfg l (imp ∷ imps) = do l' ← link_import cfg l imp; link_loop cfg l' imps

-- An empty expression panics at its first byte.
unfoldable pub fold_offset : List ℕ → Outcome (List ℕ)
fold_offset [] = panic
fold_offset (op ∷ rest) =
    if op == 0x23 then (do out ← put_s32 (0x41 ∷ []) 0; ok (out ++ (0x0b ∷ []))) else ok (op ∷ rest)

unfoldable pub fold_elems : List ElemSeg → Outcome (List ElemSeg)
fold_elems [] = ok []
fold_elems (s ∷ ss) = do
  off ← fold_offset s.offset
  ss' ← fold_elems ss
  ok (record s { offset = off } ∷ ss')

unfoldable pub fold_datas : List DataSeg → Outcome (List DataSeg)
fold_datas [] = ok []
fold_datas (s ∷ ss) = do
  off ← fold_offset s.offset
  ss' ← fold_datas ss
  ok (record s { offset = off } ∷ ss')

abbrev pub stack_pointer : List ℕ
stack_pointer = codes "__stack_pointer"

unfoldable pub prelink : Config → Module → Outcome Module
prelink cfg m = do
  l ←
      link_loop cfg
        (record {
          kept = [];
          new_globals = [];
          new_global_n = 0;
          mems = m.new_mems;
          tables = m.new_tables;
        })
        m.imports
  elems ← fold_elems m.elems
  datas ← fold_datas m.datas
  ok (record m {
    sp_global = global_index_of_import stack_pointer m;
    sp_global_set = true;
    imports = l.kept;
    new_mems = l.mems;
    new_tables = l.tables;
    globals = l.new_globals ++ m.globals;
    global_n = (m.global_n + l.new_global_n) % 2 ^ 32;
    elems = elems;
    datas = datas;
  })
