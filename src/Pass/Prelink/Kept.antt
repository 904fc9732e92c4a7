-- ===== src/Pass/Prelink/Kept.antt =====
-- What Prelink leaves of the imports.
use pglite_go.Base.{
  ℕ, ◌+◌, ◌<◌, ◌^◌, ◌%◌, ◌≡◌, ◌≢◌, refl, sym, ◌∙◌, ap, Bool, true, false, Bool-cases, Option, none,
  some, inl, inr, List, [], ◌∷◌, ◌++◌, append_assoc, append-nil, All, ◌==◌, if◌then◌else◌, arith,
}
use pglite_go.Base.Outcome.{ok}
use pglite_go.Leb.Signed.{put_s32-total}
use pglite_go.Wasm.Model.{
  Import, ElemSeg, DataSeg, Module, k_func, k_mem, k_table, k_global, num_import_funcs, count_funcs,
  global_index_of_import,
}
use pglite_go.Pass.Config.{Config, base_global}
use pglite_go.Pass.Prelink.{
  encode_mem_section, encode_table_section, stack_pointer, Linked, keep_import, internalize,
  link_global, link_import, link_loop, fold_offset, fold_elems, fold_datas, prelink,
}

abbrev pub not_in_base : Option ℕ → Bool
not_in_base none = true
not_in_base (some v) = false

-- The imports that stay: functions, and globals that are not in the base set.
abbrev pub stays : Config → Import → Bool
stays cfg imp =
    if imp.kind == k_mem
    then false
    else if imp.kind == k_table
    then false
    else if imp.kind == k_global
    then not_in_base (base_global cfg.base_globals imp.name)
    else true

abbrev pub staying : Config → List Import → List Import
staying cfg [] = []
staying cfg (imp ∷ imps) = if stays cfg imp then imp ∷ staying cfg imps else staying cfg imps

-- The base values are int32.
abbrev pub IsInt32Map : Config → Type 0
IsInt32Map cfg = (name : List ℕ) (v : ℕ) → base_global cfg.base_globals name ≡ some v → v < 2 ^ 32

link_import-stays :
    (cfg : Config) (l : Linked) (imp : Import)
    → IsInt32Map cfg
    → (l' : Linked) × (link_import cfg l imp ≡ ok l')
      × (l'.kept ≡ (if stays cfg imp then l.kept ++ (imp ∷ []) else l.kept))
unfolding link_import
link_import-stays cfg l imp ints = elim (Bool-cases (imp.kind == k_mem)) [
  | inl mem ↦ (
    record l { mems = encode_mem_section imp.m_lim_min imp.m_lim_max imp.m_has_max imp.m_shared },
    rw mem refl,
    rw mem refl,
  )
  | inr no_mem ↦ elim (Bool-cases (imp.kind == k_table)) [
    | inl tab ↦ (
      record l {
        tables = encode_table_section imp.t_elem imp.t_lim_min imp.t_lim_max imp.t_has_max;
      },
      rw (no_mem, tab) refl,
      rw (no_mem, tab) refl,
    )
    | inr no_tab ↦ elim (Bool-cases (imp.kind == k_global)) [
      | inr no_glob ↦
          (keep_import l imp, rw (no_mem, no_tab, no_glob) refl, rw (no_mem, no_tab, no_glob) refl)
      | inl glob ↦
          let (l', linked, kept) =
            global_stays (base_global cfg.base_globals imp.name) (ints imp.name) in
          (l', rw (no_mem, no_tab, glob) linked, rw (no_mem, no_tab, glob) kept)
    ]
  ]
]
  where
    global_stays :
        (o : Option ℕ)
        → ((v : ℕ) → o ≡ some v → v < 2 ^ 32)
        → (l' : Linked) × (link_global l imp o ≡ ok l')
          × (l'.kept ≡ (if not_in_base o then l.kept ++ (imp ∷ []) else l.kept))
    global_stays none h = (keep_import l imp, refl, refl)
    global_stays (some v) h =
        let (gs, e) =
          put_s32-total
            (l.new_globals ++ (imp.g_type ∷ (if imp.g_mutable then 1 else 0) ∷ 0x41 ∷ [])) v
            (h v refl) in
        (
          record l { new_globals = gs ++ (0x0b ∷ []); new_global_n = l.new_global_n + 1 },
          unfold internalize in rw e refl,
          refl,
        )

staying-cons :
    (b : Bool) (xs rest : List Import) (imp : Import)
    → (if b then xs ++ (imp ∷ []) else xs) ++ rest ≡ xs ++ (if b then imp ∷ rest else rest)
staying-cons true xs rest imp = append_assoc xs (imp ∷ []) rest
staying-cons false xs rest imp = refl

link_loop-staying :
    (cfg : Config) (l : Linked) (imps : List Import)
    → IsInt32Map cfg
    → (l' : Linked) × (link_loop cfg l imps ≡ ok l') × (l'.kept ≡ l.kept ++ staying cfg imps)
unfolding link_loop
link_loop-staying cfg l [] ints = (l, refl, sym (append-nil l.kept))
link_loop-staying cfg l (imp ∷ imps) ints =
    let (l1, e1, k1) = link_import-stays cfg l imp ints in
    let (l2, e2, k2) = link_loop-staying cfg l1 imps ints in
    (
      l2,
      rw e1 e2,
      k2
          ∙ ap (λ t. t ++ staying cfg imps) k1
          ∙ staying-cons (stays cfg imp) l.kept (staying cfg imps) imp,
    )

stays-func : (cfg : Config) (imp : Import) → (imp.kind == k_func) ≡ true → stays cfg imp ≡ true
stays-func cfg imp e =
    let kind : imp.kind ≡ 0 = ground (arith, e) in
    let no_mem : (imp.kind == k_mem) ≡ false = ground (arith, kind) in
    let no_tab : (imp.kind == k_table) ≡ false = ground (arith, kind) in
    let no_glob : (imp.kind == k_global) ≡ false = ground (arith, kind) in
    rw (no_mem, no_tab, no_glob) refl

count_funcs-staying :
    (cfg : Config) (n : ℕ) (imps : List Import)
    → count_funcs n (staying cfg imps) ≡ count_funcs n imps
unfolding count_funcs
count_funcs-staying cfg n [] = refl
count_funcs-staying cfg n (imp ∷ imps) = elim (Bool-cases (imp.kind == k_func)) [
  | inl e ↦
      ap (λ b. count_funcs n (if b then imp ∷ staying cfg imps else staying cfg imps))
        (stays-func cfg imp e)
      ∙ ap (λ b. count_funcs (if b then n + 1 else n) (staying cfg imps)) e
      ∙ count_funcs-staying cfg (n + 1) imps
      ∙ sym (ap (λ b. count_funcs (if b then n + 1 else n) imps) e)
  | inr e ↦
      no_func e (stays cfg imp)
      ∙ count_funcs-staying cfg n imps
      ∙ sym (ap (λ b. count_funcs (if b then n + 1 else n) imps) e)
]
  where
    no_func :
        (imp.kind == k_func) ≡ false
        → (b : Bool)
        → count_funcs n (if b then imp ∷ staying cfg imps else staying cfg imps)
          ≡ count_funcs n (staying cfg imps)
    no_func e true = ap (λ b. count_funcs (if b then n + 1 else n) (staying cfg imps)) e
    no_func e false = refl

fold_offset-total : (expr : List ℕ) → expr ≢ [] → (out : List ℕ) × (fold_offset expr ≡ ok out)
unfolding fold_offset
fold_offset-total [] h = absurd (h refl)
fold_offset-total (op ∷ rest) h =
    let (out, e) = put_s32-total (0x41 ∷ []) 0 (omega arith) in
    elim (Bool-cases (op == 0x23)) [
      | inl get ↦ (out ++ (0x0b ∷ []), rw (get, e) refl)
      | inr literal ↦ (op ∷ rest, rw literal refl)
    ]

fold_elems-total :
    (ss : List ElemSeg)
    → All (λ (s : ElemSeg). s.offset ≢ []) ss
    → (out : List ElemSeg) × (fold_elems ss ≡ ok out)
unfolding fold_elems
fold_elems-total [] h = ([], refl)
fold_elems-total (s ∷ ss) (h, hs) =
    let (off, e) = fold_offset-total s.offset h in
    let (rest, f) = fold_elems-total ss hs in (record s { offset = off } ∷ rest, rw (e, f) refl)

fold_datas-total :
    (ss : List DataSeg)
    → All (λ (s : DataSeg). s.offset ≢ []) ss
    → (out : List DataSeg) × (fold_datas ss ≡ ok out)
unfolding fold_datas
fold_datas-total [] h = ([], refl)
fold_datas-total (s ∷ ss) (h, hs) =
    let (off, e) = fold_offset-total s.offset h in
    let (rest, f) = fold_datas-total ss hs in (record s { offset = off } ∷ rest, rw (e, f) refl)

-- Where the base values are int32 and no segment has an empty offset, prelink returns; of the
-- imports it keeps the functions and the globals outside the base set, in their order, so that
-- functions keep their indices; the code stays, and the stack pointer is the one of the old
-- imports.
pub prelink-keeps :
    (cfg : Config) (m : Module)
    → IsInt32Map cfg
    → All (λ (s : ElemSeg). s.offset ≢ []) m.elems
    → All (λ (s : DataSeg). s.offset ≢ []) m.datas
    → (m' : Module) × (prelink cfg m ≡ ok m')
      × (m'.imports ≡ staying cfg m.imports)
      × (num_import_funcs m' ≡ num_import_funcs m)
      × (m'.codes ≡ m.codes)
      × (m'.sp_global ≡ global_index_of_import stack_pointer m)
unfolding prelink num_import_funcs
prelink-keeps cfg m ints elem_offsets data_offsets =
    let start : Linked = record {
      kept = [];
      new_globals = [];
      new_global_n = 0;
      mems = m.new_mems;
      tables = m.new_tables;
    } in
    let (l, linked, kept) = link_loop-staying cfg start m.imports ints in
    let (es, fe) = fold_elems-total m.elems elem_offsets in
    let (ds, fd) = fold_datas-total m.datas data_offsets in
    (
      record m {
        sp_global = global_index_of_import stack_pointer m;
        sp_global_set = true;
        imports = l.kept;
        new_mems = l.mems;
        new_tables = l.tables;
        globals = l.new_globals ++ m.globals;
        global_n = (m.global_n + l.new_global_n) % 2 ^ 32;
        elems = es;
        datas = ds;
      },
      rw (linked, fe, fd) refl,
      kept,
      ap (λ imps. count_funcs 0 imps) kept ∙ count_funcs-staying cfg 0 m.imports,
      refl,
      refl,
    )
