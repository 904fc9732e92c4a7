-- ===== src/Runs/Passes.antt =====
-- A module of three functions: one throws, one calls it, and one does neither.
use pglite_go.Base.{Bool-cases, inl, inr, ◌<◌, ◌^◌, arith}
use pglite_go.Wasm.Model.{global_index_of_import}
use pglite_go.Pass.Config.{Config, base_global}
use pglite_go.Pass.Prelink.{prelink, stack_pointer}
use pglite_go.Pass.Prelink.Kept.{IsInt32Map, staying, prelink-keeps}
use pglite_go.Base.{false, All}
use pglite_go.Pass.Instrument.{after_calls, insert_all}
use pglite_go.Pass.Instrument.Weave.{Piece, bytes_of, guarded, IsInstr, insert_all-after_calls}
use pglite_go.Base.{ℕ, ◌≡◌, ◌↔◌, refl, true, none, some, bytes_eq, List, [], ◌∷◌, codes}
use pglite_go.Base.Outcome.{ok}
use pglite_go.Cursor.{byte1, eof}
use pglite_go.Leb.{u32, uleb}
use pglite_go.Wasm.Model.{no_import, Module, no_module, num_import_funcs, Code}
use pglite_go.Pass.Config.{default_config}
use pglite_go.Pass.Walk.{func_calls, calls_loop, walk_instr, operands}
use pglite_go.Pass.Reach.{elem, find_seed, may_longjmp_set}
use pglite_go.Pass.Reach.Exact.{MayThrow, ListsSet, Walks, may_longjmp_set_exact}

abbrev body_of : List ℕ → Code
body_of b = record { local_counts = []; local_types = []; body = b }

abbrev chain : Module
chain = record no_module {
  imports =
      record no_import { module_name = codes "env"; name = codes "_emscripten_throw_longjmp" } ∷ [];
  codes =
      body_of (0x10 ∷ 0 ∷ 0x0b ∷ [])
      ∷ body_of (0x10 ∷ 1 ∷ 0x0b ∷ [])
      ∷ body_of (0x01 ∷ 0x0b ∷ [])
      ∷ [];
}

chain-Walks : Walks chain.codes
unfolding func_calls calls_loop walk_instr operands byte1 eof u32 uleb
chain-Walks = ((((0 ∷ []), _), refl), ((((1 ∷ []), _), refl), ((([], _), refl), tt)))

thrower_walks : func_calls (0x10 ∷ 0 ∷ 0x0b ∷ []) ≡ ok (0 ∷ [], false)
unfolding func_calls calls_loop walk_instr operands byte1 eof u32 uleb
thrower_walks = refl

same_order : ListsSet (λ xs. xs)
same_order = record { same = λ set x. refl }

seed_found : find_seed default_config.seed_import 0 none chain.imports ≡ some 0
unfolding find_seed bytes_eq
seed_found = refl

may_longjmp_set_exact_example :
    (set : List ℕ) × (may_longjmp_set (λ xs. xs) default_config chain ≡ ok (set, 0))
    × ((x : ℕ) → (elem x set ≡ true) ↔ MayThrow (num_import_funcs chain) 0 chain.codes x)
may_longjmp_set_exact_example =
    may_longjmp_set_exact (λ xs. xs) default_config chain 0 same_order seed_found chain-Walks

insert_all-after_calls_example :
    (ps : List Piece) × (after : List ℕ) × (bytes_of ps ≡ 0x10 ∷ 0 ∷ 0x0b ∷ [])
    × All (IsInstr 0 []) ps
    × (after_calls 0 [] (0x10 ∷ 0 ∷ 0x0b ∷ []) ≡ ok after)
    × (insert_all (0x01 ∷ []) (0x10 ∷ 0 ∷ 0x0b ∷ []) after ≡ ok (guarded (0x01 ∷ []) ps))
insert_all-after_calls_example =
    insert_all-after_calls 0 [] (0x01 ∷ []) (0x10 ∷ 0 ∷ 0x0b ∷ []) (0 ∷ [], false) thrower_walks

-- A function, the stack pointer, which is in the base set, and another global.
abbrev linked : Module
linked = record no_module {
  imports =
      record no_import { module_name = codes "env"; name = codes "abort" }
      ∷ record no_import { module_name = codes "env"; name = codes "__stack_pointer"; kind = 3 }
      ∷ record no_import { module_name = codes "GOT.mem"; name = codes "x"; kind = 3 }
      ∷ [];
  elems = record { flag = 0; offset = 0x23 ∷ 1 ∷ 0x0b ∷ []; funcs = [] } ∷ [];
}

abbrev one_base : Config
one_base = record default_config { base_globals = (codes "__stack_pointer", 10937088) ∷ [] }

base_values : IsInt32Map one_base
unfolding base_global
base_values name v e = elim (Bool-cases (bytes_eq (codes "__stack_pointer") name)) [
  | inl same ↦ some_value (rw same at e)
  | inr other ↦ absurd (cc (rw other at e))
]
  where
    some_value : some 10937088 ≡ some v → v < 2 ^ 32
    some_value e = let at : 10937088 ≡ v = cc e in omega (arith, at)

prelink-keeps_example :
    (m' : Module) × (prelink one_base linked ≡ ok m')
    × (m'.imports ≡ staying one_base linked.imports)
    × (num_import_funcs m' ≡ num_import_funcs linked)
    × (m'.codes ≡ linked.codes)
    × (m'.sp_global ≡ global_index_of_import stack_pointer linked)
prelink-keeps_example = prelink-keeps one_base linked base_values ((λ e. cc e), tt) tt
