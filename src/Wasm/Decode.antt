-- ===== src/Wasm/Decode.antt =====
-- `Decode` of internal/wasmpass/wasm.go and the section parsers.
use pglite_go.Base.{
  ℕ, zero, suc, ◌-◌, Bool, true, false, List, [], ◌∷◌, ◌++◌, length, take, drop, ltb, leb, ◌==◌,
  ◌||◌, if◌then◌else◌, bytes_eq, not,
}
use pglite_go.Base.Outcome
use pglite_go.Base.Outcome.{Outcome, Error, ok, err, panic, stuck, not_wasm, unknown_section}
use pglite_go.Cursor.{
  Cur, Read, ◌>>=◌, ◌>>◌, pure, fault, byte1, skip, bytes, copy_bytes, eof, repeat, input,
}
use pglite_go.Leb.{u32, u64, name}
use pglite_go.Wasm.Model.{
  Import, no_import, Export, FuncType, Code, ElemSeg, DataSeg, Module, no_module, k_func, k_table,
  k_mem, k_global,
}

unfoldable pub func_type : Read FuncType
func_type = do
  form ← byte1
  np ← u32
  params ← copy_bytes np
  nr ← u32
  results ← copy_bytes nr
  pure (record { params = params; results = results })

unfoldable pub parse_types : Read (List FuncType)
parse_types = do n ← u32; repeat n func_type

unfoldable pub parse_funcs : Read (List ℕ)
parse_funcs = do n ← u32; repeat n u32

-- min, max, hasMax and shared
abbrev pub Limits : Type 0
Limits = ℕ × ℕ × Bool × Bool

abbrev pub limits_of : ℕ → ℕ → Read Limits
limits_of flag min =
    if flag == 0x00
    then pure (min, 0, false, false)
    else if flag == 0x01
    then (do max ← u32; pure (min, max, true, false))
    else if flag == 0x03
    then (do max ← u32; pure (min, max, true, true))
    else if flag == 0x02
    then pure (min, 0, false, true)
    else pure (min, 0, false, false)

unfoldable pub read_limits : Read Limits
read_limits = do flag ← byte1; min ← u32; limits_of flag min

abbrev pub with_table : Import → ℕ → Limits → Import
with_table imp e (min, max, has_max, shared) = record imp {
  t_elem = e;
  t_lim_min = min;
  t_lim_max = max;
  t_has_max = has_max;
}

abbrev pub with_mem : Import → Limits → Import
with_mem imp (min, max, has_max, shared) = record imp {
  m_lim_min = min;
  m_lim_max = max;
  m_has_max = has_max;
  m_shared = shared;
}

-- The switch on the kind.
unfoldable pub import_desc : Import → Read Import
import_desc imp =
    if imp.kind == k_func
    then (do i ← u32; pure (record imp { type_idx = i }))
    else if imp.kind == k_table
    then (do e ← byte1; l ← read_limits; pure (with_table imp e l))
    else if imp.kind == k_mem
    then (do l ← read_limits; pure (with_mem imp l))
    else if imp.kind == k_global
    then (do t ← byte1; mu ← byte1; pure (record imp { g_type = t; g_mutable = mu == 1 }))
    else pure imp

unfoldable pub import_entry : Read Import
import_entry = do
  mo ← name
  na ← name
  ki ← byte1
  import_desc (record no_import { module_name = mo; name = na; kind = ki })

unfoldable pub parse_imports : Read (List Import)
parse_imports = do n ← u32; repeat n import_entry

unfoldable pub export_entry : Read Export
export_entry = do
  na ← name
  ki ← byte1
  ix ← u32
  pure (record { name = na; kind = ki; index = ix })

unfoldable pub parse_exports : Read (List Export)
parse_exports = do n ← u32; repeat n export_entry

-- The operand of a constant expression's instruction other than `end`.
unfoldable pub const_operand : ℕ → Read (Unit {0})
const_operand op =
    if op == 0x23 || op == 0x41
    then (do u32; pure tt)
    else if op == 0x42
    then (do u64; pure tt)
    else if op == 0x43
    then skip 4
    else if op == 0x44
    then skip 8
    else pure tt

-- The loop of `constExpr`; each round takes a byte.
unfoldable pub const_expr_loop : ℕ → Read (Unit {0})
const_expr_loop zero c = stuck
const_expr_loop (suc fuel) c =
    let rest = const_expr_loop fuel in
    (do op ← byte1; if op == 0x0b then pure tt else (do const_operand op; rest)) c

-- c.b[start:c.p], for the cursors at the start and behind the expression.
abbrev pub passed : Cur → Cur → List ℕ
passed start stop = take (length start.here - length stop.here) start.here

unfoldable pub const_expr : Read (List ℕ)
const_expr c = (do const_expr_loop (suc (length c.here)); λ c'. ok (passed c c', c')) c

unfoldable pub elem_seg : Read ElemSeg
elem_seg = do
  flag ← u32
  if flag == 0
      then (do
        off ← const_expr
        cnt ← u32
        fs ← repeat cnt u32
        pure (record { flag = flag; offset = off; funcs = fs }))
      else fault

unfoldable pub parse_elems : Read (List ElemSeg)
parse_elems = do n ← u32; repeat n elem_seg

unfoldable pub data_seg : Read DataSeg
data_seg = do
  flag ← u32
  if flag == 0
      then (do
        off ← const_expr
        ln ← u32
        bs ← copy_bytes ln
        pure (record { flag = flag; offset = off; contents = bs }))
      else fault

unfoldable pub parse_data : Read (List DataSeg)
parse_data = do n ← u32; repeat n data_seg

unfoldable pub local_run : Read (ℕ × ℕ)
local_run = do n ← u32; t ← byte1; pure (n, t)

abbrev pub local_runs : Read (List (ℕ × ℕ))
local_runs = do nl ← u32; repeat nl local_run

abbrev pub firsts : List (ℕ × ℕ) → List ℕ
firsts [] = []
firsts ((n, t) ∷ r) = n ∷ firsts r

abbrev pub seconds : List (ℕ × ℕ) → List ℕ
seconds [] = []
seconds ((n, t) ∷ r) = t ∷ seconds r

-- c.b[c.p:end] for an end `size` bytes behind `start`: a slice with its end before its start panics.
unfoldable pub body_to : ℕ → Cur → Read (List ℕ)
body_to size start c =
    let used = length start.here - length c.here in
    if leb used size then copy_bytes (size - used) c else panic

unfoldable pub code_entry : Read Code
code_entry = do
  size ← u32
  start ← λ c. ok (c, c)
  runs ← local_runs
  body ← body_to size start
  pure (record { local_counts = firsts runs; local_types = seconds runs; body = body })

unfoldable pub parse_code : Read (List Code)
parse_code = do n ← u32; repeat n code_entry

-- The global section: the count, and the entries as they stand before the payload's end.
unfoldable pub raw_globals : Read (ℕ × List ℕ)
raw_globals = do n ← u32; λ c. ok ((n, c.here), c)

-- A parser run over a payload; where it stops does not matter.
abbrev pub parsed {ℓ κ} : {A : Type ℓ} {B : Type κ} → Outcome (A × Cur) → (A → B) → Outcome B
parsed (ok (a, c)) f = ok (f a)
parsed (err e) f = err e
parsed panic f = panic
parsed stuck f = stuck

-- The switch on the section id; what a parser reads is appended to what the module has.
unfoldable pub decode_section : ℕ → Cur → Module → Outcome Module
decode_section id payload m =
    if id == 0
    then ok m
    else if id == 1
    then parsed (parse_types payload)
        (λ ts. record m { raw_types = payload.here; types = m.types ++ ts })
    else if id == 2
    then parsed (parse_imports payload) (λ is. record m { imports = m.imports ++ is })
    else if id == 3
    then parsed (parse_funcs payload)
        (λ fs. record m { raw_func = payload.here; funcs = m.funcs ++ fs })
    else if id == 4
    then ok (record m { new_tables = payload.here })
    else if id == 5
    then ok (record m { new_mems = payload.here })
    else if id == 6
    then parsed (raw_globals payload) (λ g. record m { global_n = g.0; globals = g.1 })
    else if id == 7
    then parsed (parse_exports payload) (λ es. record m { exports = m.exports ++ es })
    else if id == 8
    then ok (record m { raw_start = payload.here; has_start = true })
    else if id == 9
    then parsed (parse_elems payload) (λ es. record m { elems = m.elems ++ es })
    else if id == 10
    then parsed (parse_code payload) (λ cs. record m { codes = m.codes ++ cs })
    else if id == 11
    then parsed (parse_data payload) (λ ds. record m { datas = m.datas ++ ds })
    else if id == 12
    then ok (record m { raw_data_cnt = payload.here; has_data_cnt = true })
    else err (unknown_section id)

-- The id and the payload of the next section.
unfoldable pub section_frame : Read (ℕ × Cur)
section_frame = do id ← byte1; size ← u32; payload ← bytes size; pure (id, payload)

-- Each section takes two bytes at least.
unfoldable pub decode_loop : ℕ → Cur → Module → Outcome Module
decode_loop zero c m = stuck
decode_loop (suc fuel) c m =
    let rest = decode_loop fuel in
    if eof c
    then ok m
    else Outcome.◌>>=◌ (section_frame c)
        (λ f. Outcome.◌>>=◌ (decode_section f.0.0 f.0.1 m) (λ m'. rest f.1 m'))

abbrev pub magic : List ℕ
magic = 0x00 ∷ 0x61 ∷ 0x73 ∷ 0x6d ∷ []

unfoldable pub decode : Cur → Outcome Module
decode b =
    if ltb (length b.here) 8 || not (bytes_eq (take 4 b.here) magic)
    then err not_wasm
    else decode_loop (suc (length b.here)) (input (drop 8 b.here) b.beyond) no_module
