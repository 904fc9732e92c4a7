-- ===== src/Pass/Config.antt =====
-- The configuration of internal/wasmpass/passes.go, and `StripExports`.
use pglite_go.Base.{
  ℕ, ◌+◌, Bool, false, Option, none, some, List, [], ◌∷◌, ◌++◌, if◌then◌else◌, bytes_eq, codes,
  ◌||◌,
}
use pglite_go.Wasm.Model.{Export, Module}

-- An int32 is its bit pattern, a Go map is its list of entries, and an index below 0 is `none`.
pub record Config : Type 0 where
  pub roots : List (List ℕ)
  pub base_globals : List (List ℕ × ℕ)
  pub seed_import : List ℕ
  pub threw_addr : ℕ
  pub sp_global_override : Option ℕ

unfoldable pub is_root : List (List ℕ) → List ℕ → Bool
is_root [] name = false
is_root (r ∷ rs) name = bytes_eq r name || is_root rs name

unfoldable pub base_global : List (List ℕ × ℕ) → List ℕ → Option ℕ
base_global [] name = none
base_global ((n, v) ∷ gs) name = if bytes_eq n name then some v else base_global gs name

abbrev stack_top : ℕ
stack_top = 10937088

abbrev pglite_bases : List (List ℕ × ℕ)
pglite_bases =
    (codes "__memory_base", 0)
    ∷ (codes "__stack_pointer", stack_top)
    ∷ (codes "__table_base", 0)
    ∷ (codes "__heap_base", stack_top)
    ∷ []

abbrev pub default_config : Config
default_config = record {
  roots =
      codes "PostgresMainLongJmp"
      ∷ codes "PostgresMainLoopOnce"
      ∷ codes "PostgresSendReadyForQueryIfNecessary"
      ∷ codes "ProcessStartupPacket"
      ∷ codes "pgl_getMyProcPort"
      ∷ codes "pgl_pq_flush"
      ∷ codes "pgl_setPGliteActive"
      ∷ codes "pgl_set_rw_cbs"
      ∷ codes "pgl_startPGlite"
      ∷ codes "pq_buffer_remaining_data"
      ∷ codes "pgl_set_pclose_fn"
      ∷ codes "pgl_set_popen_fn"
      ∷ codes "pgl_set_system_fn"
      ∷ codes "__main_argc_argv"
      ∷ codes "__wasm_call_ctors"
      ∷ codes "__wasm_apply_data_relocs"
      ∷ codes "memory"
      ∷ codes "emscripten_builtin_memalign"
      ∷ codes "malloc"
      ∷ [];
  base_globals = pglite_bases;
  seed_import = codes "_emscripten_throw_longjmp";
  threw_addr = 2980948;
  sp_global_override = none;
}

abbrev pub default_initdb_config : Config
default_initdb_config = record {
  roots =
      codes "__main_argc_argv"
      ∷ codes "__wasm_call_ctors"
      ∷ codes "__wasm_apply_data_relocs"
      ∷ codes "pgl_set_system_fn"
      ∷ codes "pgl_set_popen_fn"
      ∷ codes "pgl_set_pclose_fn"
      ∷ codes "fopen"
      ∷ codes "fclose"
      ∷ codes "fflush"
      ∷ codes "_emscripten_stack_alloc"
      ∷ codes "emscripten_builtin_memalign"
      ∷ codes "malloc"
      ∷ codes "memory"
      ∷ [];
  base_globals = pglite_bases;
  seed_import = codes "_emscripten_throw_longjmp";
  threw_addr = 139240;
  sp_global_override = none;
}

-- The exports that stay, and how many went.
unfoldable pub strip_loop : List (List ℕ) → List Export → ℕ → List Export → List Export × ℕ
strip_loop roots kept n [] = (kept, n)
strip_loop roots kept n (e ∷ es) =
    let keep = strip_loop roots (kept ++ (e ∷ [])) n es in
    let drop_it = strip_loop roots kept (n + 1) es in if is_root roots e.name then keep else drop_it

unfoldable pub strip_exports : Config → Module → Module × ℕ
strip_exports cfg m =
    let r = strip_loop cfg.roots [] 0 m.exports in (record m { exports = r.0 }, r.1)
