-- ===== src/Wasm/Model.antt =====
-- The types of internal/wasmpass/wasm.go. A Go string or byte slice is a list of bytes; a nil slice
-- and an empty one are told apart nowhere in that file, so both are the empty list.
use pglite_go.Base.{
  ℕ, Bool, false, Option, some, List, [], if◌then◌else◌, ◌==◌, bytes_eq, none, ◌+◌, ◌∷◌,
}

abbrev pub k_func : ℕ
k_func = 0

abbrev pub k_table : ℕ
k_table = 1

abbrev pub k_mem : ℕ
k_mem = 2

abbrev pub k_global : ℕ
k_global = 3

pub record Import : Type 0 where
  pub module_name : List ℕ
  pub name : List ℕ
  pub kind : ℕ
  pub type_idx : ℕ
  pub t_elem : ℕ
  pub t_lim_min : ℕ
  pub t_lim_max : ℕ
  pub t_has_max : Bool
  pub m_lim_min : ℕ
  pub m_lim_max : ℕ
  pub m_has_max : Bool
  pub m_shared : Bool
  pub g_type : ℕ
  pub g_mutable : Bool

-- `var imp Import`
abbrev pub no_import : Import
no_import = record {
  module_name = [];
  name = [];
  kind = 0;
  type_idx = 0;
  t_elem = 0;
  t_lim_min = 0;
  t_lim_max = 0;
  t_has_max = false;
  m_lim_min = 0;
  m_lim_max = 0;
  m_has_max = false;
  m_shared = false;
  g_type = 0;
  g_mutable = false;
}

pub record Export : Type 0 where
  pub name : List ℕ
  pub kind : ℕ
  pub index : ℕ

pub record FuncType : Type 0 where
  pub params : List ℕ
  pub results : List ℕ

pub record Code : Type 0 where
  pub local_counts : List ℕ
  pub local_types : List ℕ
  pub body : List ℕ

-- The field Raw of both segment types is never written.
pub record ElemSeg : Type 0 where
  pub flag : ℕ
  pub offset : List ℕ
  pub funcs : List ℕ

pub record DataSeg : Type 0 where
  pub flag : ℕ
  pub offset : List ℕ
  pub contents : List ℕ

-- `sp_global` is `none` for the index -1.
pub record Module : Type 0 where
  pub raw_types : List ℕ
  pub raw_func : List ℕ
  pub raw_start : List ℕ
  pub raw_data_cnt : List ℕ
  pub has_start : Bool
  pub has_data_cnt : Bool
  pub types : List FuncType
  pub imports : List Import
  pub exports : List Export
  pub funcs : List ℕ
  pub globals : List ℕ
  pub global_n : ℕ
  pub new_tables : List ℕ
  pub new_mems : List ℕ
  pub elems : List ElemSeg
  pub datas : List DataSeg
  pub codes : List Code
  pub sp_global : Option ℕ
  pub sp_global_set : Bool

-- `&Module{}`
abbrev pub no_module : Module
no_module = record {
  raw_types = [];
  raw_func = [];
  raw_start = [];
  raw_data_cnt = [];
  has_start = false;
  has_data_cnt = false;
  types = [];
  imports = [];
  exports = [];
  funcs = [];
  globals = [];
  global_n = 0;
  new_tables = [];
  new_mems = [];
  elems = [];
  datas = [];
  codes = [];
  sp_global = some 0;
  sp_global_set = false;
}

unfoldable pub count_funcs : ℕ → List Import → ℕ
count_funcs n [] = n
count_funcs n (imp ∷ imps) = count_funcs (if imp.kind == k_func then n + 1 else n) imps

unfoldable pub num_import_funcs : Module → ℕ
unfolding count_funcs
num_import_funcs m = count_funcs 0 m.imports

unfoldable pub find_global : List ℕ → ℕ → List Import → Option ℕ
find_global name gi [] = none
find_global name gi (imp ∷ imps) =
    if imp.kind == k_global
    then (if bytes_eq imp.name name then some gi else find_global name (gi + 1) imps)
    else find_global name gi imps

unfoldable pub global_index_of_import : List ℕ → Module → Option ℕ
unfolding find_global
global_index_of_import name m = find_global name 0 m.imports
