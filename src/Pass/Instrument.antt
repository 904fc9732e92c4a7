-- ===== src/Pass/Instrument.antt =====
-- `Instrument`, `buildGuard`, `addLocal` and `Transform` of internal/wasmpass/passes.go.
pub mod Walked
pub mod Weave
use pglite_go.Base.{
  ℕ, zero, suc, ◌+◌, ◌-◌, ◌%◌, ◌^◌, ◌==◌, Bool, true, false, Option, none, some, List, [], ◌∷◌,
  ◌++◌, length, take, drop, get_elem?, if◌then◌else◌, ◌||◌, leb,
}
use pglite_go.Base.Outcome.{Outcome, ok, panic, stuck, ◌>>=◌}
use pglite_go.Cursor.{Cur, eof, input}
use pglite_go.Leb.{u32, put_u32, put_s32}
use pglite_go.Wasm.Model.{FuncType, Code, Module, global_index_of_import}
use pglite_go.Wasm.Decode.{decode}
use pglite_go.Wasm.Encode.{encode}
use pglite_go.Pass.Config.{Config, strip_exports}
use pglite_go.Pass.Prelink.{prelink, stack_pointer}
use pglite_go.Pass.Reach.{elem, may_longjmp_set}
use pglite_go.Pass.Walk.{walk_instr}

unfoldable pub zero_const : ℕ → Outcome (List ℕ)
zero_const vt =
    if vt == 0x7f
    then ok (0x41 ∷ 0x00 ∷ [])
    else if vt == 0x7e
    then ok (0x42 ∷ 0x00 ∷ [])
    else if vt == 0x7d
    then ok (0x43 ∷ 0x00 ∷ 0x00 ∷ 0x00 ∷ 0x00 ∷ [])
    else if vt == 0x7c
    then ok (0x44 ∷ 0x00 ∷ 0x00 ∷ 0x00 ∷ 0x00 ∷ 0x00 ∷ 0x00 ∷ 0x00 ∷ 0x00 ∷ [])
    else panic

unfoldable pub zero_consts : List ℕ → List ℕ → Outcome (List ℕ)
zero_consts g [] = ok g
zero_consts g (vt ∷ vts) = do z ← zero_const vt; zero_consts (g ++ z) vts

unfoldable pub restore_sp : Bool → ℕ → ℕ → List ℕ → List ℕ
restore_sp writes_sp sp_save_local sp_idx g =
    if writes_sp
    then put_u32 (put_u32 (g ++ (0x20 ∷ [])) (sp_save_local % 2 ^ 32) ++ (0x24 ∷ []))
        (sp_idx % 2 ^ 32)
    else g

unfoldable pub build_guard : Config → List ℕ → Bool → ℕ → ℕ → Outcome (List ℕ)
build_guard cfg results writes_sp sp_save_local sp_idx = do
  addr ← put_s32 (0x41 ∷ []) cfg.threw_addr
  let load = put_u32 (put_u32 (addr ++ (0x28 ∷ [])) 2) 0
  let open_if = load ++ (0x04 ∷ 0x40 ∷ [])
  g ← zero_consts (restore_sp writes_sp sp_save_local sp_idx open_if) results
  ok (g ++ (0x0f ∷ 0x0b ∷ []))

-- The positions behind the calls that can end in a longjmp.
abbrev pub may_jump : ℕ → List ℕ → Option ℕ → Bool
may_jump seed set none = false
may_jump seed set (some ct) = ct == seed || elem ct set

unfoldable pub after_loop : ℕ → ℕ → List ℕ → ℕ → Cur → List ℕ → Outcome (List ℕ)
after_loop zero seed set size c after = stuck
after_loop (suc fuel) seed set size c after =
    let rest = after_loop fuel seed set size in
    if eof c
    then ok after
    else walk_instr c >>= λ w. rest w.1 (
        if w.0.1 || may_jump seed set w.0.0
        then after ++ ((size - length w.1.here) ∷ [])
        else after)

unfoldable pub after_calls : ℕ → List ℕ → List ℕ → Outcome (List ℕ)
after_calls seed set body = after_loop (suc (length body)) seed set (length body) (input body []) []

-- The operand of the `global.set` at the cursor.
abbrev pub sets_global : ℕ → List ℕ → Outcome Bool
sets_global g [] = panic
sets_global g (op ∷ rest) =
    if op == 0x24 then (u32 (input rest []) >>= λ r. ok (r.0 == g)) else ok false

unfoldable pub writes_loop : ℕ → ℕ → Cur → Outcome Bool
writes_loop zero g c = stuck
writes_loop (suc fuel) g c =
    let rest = writes_loop fuel g in
    if eof c
    then ok false
    else sets_global g c.here >>= λ found.
        if found then ok true else (walk_instr c >>= λ w. rest w.1)

unfoldable pub body_writes_global : List ℕ → ℕ → Outcome Bool
body_writes_global body g = writes_loop (suc (length body)) g (input body [])

abbrev pub sum : List ℕ → ℕ
sum [] = 0
sum (n ∷ ns) = n + sum ns

abbrev pub last? : List ℕ → Option ℕ
last? [] = none
last? (t ∷ []) = some t
last? (t ∷ u ∷ ts) = last? (u ∷ ts)

-- LocalCounts[len-1]++ on uint32 counts.
unfoldable pub bump_last : List ℕ → Outcome (List ℕ)
bump_last [] = panic
bump_last (n ∷ []) = ok ((n + 1) % 2 ^ 32 ∷ [])
bump_last (n ∷ k ∷ ns) = do ns' ← bump_last (k ∷ ns); ok (n ∷ ns')

abbrev pub ends_in : Option ℕ → ℕ → Bool
ends_in none vt = false
ends_in (some t) vt = t == vt

-- The last run gets one more variable if it is of the type, and a new run is added if not.
unfoldable pub add_local : ℕ → ℕ → Code → Outcome (Code × ℕ)
add_local params vt code =
    let new_index = params + sum code.local_counts in
    if ends_in (last? code.local_types) vt
    then (bump_last code.local_counts >>= λ counts.
        ok (record code { local_counts = counts }, new_index))
    else ok (
      record code {
        local_counts = code.local_counts ++ (1 ∷ []);
        local_types = code.local_types ++ (vt ∷ []);
      },
      new_index,
    )

-- The loop that inserts the guard, from the last position to the first; a position behind the end
-- panics.
unfoldable pub insert_at : List ℕ → List ℕ → ℕ → Outcome (List ℕ)
insert_at guard nb at =
    if leb at (length nb) then ok (take at nb ++ (guard ++ drop at nb)) else panic

unfoldable pub insert_all : List ℕ → List ℕ → List ℕ → Outcome (List ℕ)
insert_all guard body [] = ok body
insert_all guard body (at ∷ after) = do nb ← insert_all guard body after; insert_at guard nb at

abbrev pub save_sp : Bool → ℕ → ℕ → List ℕ → List ℕ
save_sp writes_sp sp_save_local sp_idx nb =
    if writes_sp
    then put_u32 (put_u32 (0x23 ∷ []) (sp_idx % 2 ^ 32) ++ (0x21 ∷ [])) (sp_save_local % 2 ^ 32)
      ++ nb
    else nb

-- The body of the loop over the functions, for one that has calls to guard.
unfoldable pub guard_code : Config → ℕ → FuncType → Code → List ℕ → Outcome Code
guard_code cfg sp_idx ft code after = do
  writes_sp ← body_writes_global code.body (sp_idx % 2 ^ 32)
  added ← if writes_sp then add_local (length ft.params) 0x7f code else ok (code, 0)
  guard ← build_guard cfg ft.results writes_sp added.1 sp_idx
  nb ← insert_all guard code.body after
  ok (record (added.0) { body = save_sp writes_sp added.1 sp_idx nb })

unfoldable pub instrument_code : Config → ℕ → List ℕ → ℕ → FuncType → Code → Outcome (Code × ℕ)
instrument_code cfg seed set sp_idx ft code = do
  after ← after_calls seed set code.body
  if (length after == 0)
      then ok (code, 0)
      else (do code' ← guard_code cfg sp_idx ft code after; ok (code', length after))

abbrev pub or_panic {ℓ} : {A : Type ℓ} → Option A → Outcome A
or_panic none = panic
or_panic (some a) = ok a

-- m.Types[m.Funcs[i]] out of range panics.
unfoldable pub instrument_loop :
    Config → ℕ → List ℕ → ℕ → List FuncType → List ℕ → List Code → Outcome (List Code × ℕ)
instrument_loop cfg seed set sp_idx types funcs [] = ok ([], 0)
instrument_loop cfg seed set sp_idx types [] (code ∷ codes) = panic
instrument_loop cfg seed set sp_idx types (f ∷ funcs) (code ∷ codes) = do
  ft ← or_panic (get_elem? types f)
  r ← instrument_code cfg seed set sp_idx ft code
  rest ← instrument_loop cfg seed set sp_idx types funcs codes
  ok (r.0 ∷ rest.0, r.1 + rest.1)

abbrev pub sp_index : Config → Module → Option ℕ
sp_index cfg m = elim cfg.sp_global_override [
  | some i ↦ some i
  | none ↦ if m.sp_global_set then m.sp_global else global_index_of_import stack_pointer m
]

unfoldable pub instrument : (List ℕ → List ℕ) → Config → Module → Outcome (Module × ℕ × ℕ)
instrument order cfg m = do
  s ← may_longjmp_set order cfg m
  sp_idx ← or_panic (sp_index cfg m)
  r ← instrument_loop cfg s.1 s.0 sp_idx m.types m.funcs m.codes
  ok (record m { codes = r.0 }, length s.0, r.1)

pub record Stats : Type 0 where
  pub exports_stripped : ℕ
  pub may_longjmp_funcs : ℕ
  pub instrumented_sites : ℕ

unfoldable pub transform : (List ℕ → List ℕ) → Config → Cur → Outcome (List ℕ × Stats)
transform order cfg b = do
  m ← decode b
  let s = strip_exports cfg m
  l ← prelink cfg s.0
  r ← instrument order cfg l
  out ← encode r.0
  ok (out, record { exports_stripped = s.1; may_longjmp_funcs = r.1; instrumented_sites = r.2 })
