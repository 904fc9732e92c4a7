-- ===== src/Pass/Reach.antt =====
-- `mayLongjmpSet` of internal/wasmpass/passes.go.
--
-- A Go set of ints is a list without repetitions, and `callers` is the list of its (callee, caller)
-- pairs. Go's order of iteration over a map is not specified: it is the argument `order`, which
-- lists the set in any order.
pub mod Closure
pub mod Scan
pub mod Exact
use pglite_go.Base.{
  ℕ, zero, suc, ◌+◌, ◌==◌, Bool, true, false, Option, none, some, List, [], ◌∷◌, ◌++◌, length,
  if◌then◌else◌, bytes_eq, ◌||◌, ◌&&◌,
}
use pglite_go.Base.Outcome.{Outcome, ok, err, panic, stuck, ◌>>=◌}
use pglite_go.Wasm.Model.{Import, Code, Module, k_func, num_import_funcs}
use pglite_go.Pass.Config.{Config}
use pglite_go.Pass.Walk.{func_calls}

unfoldable pub elem : ℕ → List ℕ → Bool
elem x [] = false
elem x (y ∷ ys) = x == y || elem x ys

-- set[x] = true
unfoldable pub insert : ℕ → List ℕ → List ℕ
insert x set = if elem x set then set else x ∷ set

-- The last function import of the seed's name, among the function imports.
unfoldable pub find_seed : List ℕ → ℕ → Option ℕ → List Import → Option ℕ
find_seed name fi seed [] = seed
find_seed name fi seed (imp ∷ imps) =
    if imp.kind == k_func
    then find_seed name (fi + 1) (if bytes_eq imp.name name then some fi else seed) imps
    else find_seed name fi seed imps

abbrev pub Edges : Type 0
Edges = List (ℕ × ℕ)

-- The loop over a function's call targets.
unfoldable pub add_calls : ℕ → ℕ → List ℕ → Edges → List ℕ → Edges × List ℕ
add_calls seed overall [] callers set = (callers, set)
add_calls seed overall (cal ∷ calls) callers set =
    add_calls seed overall calls (callers ++ ((cal, overall) ∷ []))
      (if cal == seed then insert overall set else set)

-- The loop over the function bodies.
unfoldable pub scan_codes : ℕ → ℕ → List Code → Edges → List ℕ → Outcome (Edges × List ℕ)
scan_codes seed overall [] callers set = ok (callers, set)
scan_codes seed overall (code ∷ codes) callers set = do
  f ← func_calls code.body
  let r = add_calls seed overall f.0 callers (if f.1 then insert overall set else set)
  scan_codes seed (overall + 1) codes r.0 r.1

-- `for _, caller := range callers[x]`: the set and the stack of work, its last item first.
unfoldable pub visit : ℕ → Edges → List ℕ → List ℕ → List ℕ × List ℕ
visit x [] set work = (set, work)
visit x ((callee, caller) ∷ es) set work =
    let skipped = visit x es set work in
    let added = visit x es (caller ∷ set) (caller ∷ work) in
    if callee == x && (if elem caller set then false else true) then added else skipped

-- `for len(work) > 0`
unfoldable pub close_loop : ℕ → Edges → List ℕ → List ℕ → Outcome (List ℕ)
close_loop fuel callers set [] = ok set
close_loop zero callers set (x ∷ work) = stuck
close_loop (suc fuel) callers set (x ∷ work) =
    let r = visit x callers set work in close_loop fuel callers r.0 r.1

abbrev pub with_seed : Option ℕ → (ℕ → Outcome (List ℕ × ℕ)) → Outcome (List ℕ × ℕ)
with_seed none f = panic
with_seed (some seed) f = f seed

-- Each function enters the stack of work once at most, behind those that it begins with.
unfoldable pub may_longjmp_set : (List ℕ → List ℕ) → Config → Module → Outcome (List ℕ × ℕ)
may_longjmp_set order cfg m = with_seed (find_seed cfg.seed_import 0 none m.imports) (λ seed. do
  r ← scan_codes seed (num_import_funcs m) m.codes [] []
  set ← close_loop (length (order r.1) + length m.codes) r.0 r.1 (order r.1)
  ok (set, seed))
