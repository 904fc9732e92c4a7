-- ===== src/Pass/Reach/Exact.antt =====
-- The set of `mayLongjmpSet` against the calls in the function bodies.
use pglite_go.Base.{
  ℕ, zero, suc, ◌+◌, ◌<◌, ==_iff, ◌≡◌, refl, sym, ◌∙◌, ap, Bool, true, false, none, some, List, [],
  ◌∷◌, length, arith, ◌⊎◌, ◌↔◌, inl, inr, get_elem?, All,
}
use pglite_go.Base.Outcome.{ok}
use pglite_go.Wasm.Model.{Code, Module, num_import_funcs}
use pglite_go.Pass.Config.{Config}
use pglite_go.Pass.Walk.{func_calls}
use pglite_go.Pass.Reach.{elem, Edges, find_seed, scan_codes, close_loop, may_longjmp_set}
use pglite_go.Pass.Reach.Closure.{
  has_edge, ClosedUpTo, close_loop_grows, close_loop_closes, close_loop_sound, close_loop_total,
}
use pglite_go.Pass.Reach.Scan.{
  Body, Begins, scan_edge_from, scan_edge_to, scan_set_from, scan_set_to,
}

-- The functions that can end in the throw: those that call through a table, those that call it,
-- and those that call such a function.
pub data MayThrow (first seed : ℕ) (codes : List Code) : ℕ → Type 0 where
  indirect :
      {x : ℕ} (i : ℕ) (calls : List ℕ)
      → x ≡ first + i
      → Body codes i calls true
      → MayThrow first seed codes x
  throws :
      {x : ℕ} (i : ℕ) (calls : List ℕ) (b : Bool)
      → x ≡ first + i
      → Body codes i calls b
      → elem seed calls ≡ true
      → MayThrow first seed codes x
  through :
      {x y : ℕ} (i : ℕ) (calls : List ℕ) (b : Bool)
      → x ≡ first + i
      → Body codes i calls b
      → elem y calls ≡ true
      → MayThrow first seed codes y
      → MayThrow first seed codes x

-- Go lists a map's keys in an order of its own; the list holds the keys and no others, each once.
pub record ListsSet (order : List ℕ → List ℕ) : Type 0 where
  pub same : (set : List ℕ) (x : ℕ) → elem x (order set) ≡ elem x set

-- Everything but the closure, for a set that the loop returned.
module _ (first seed fuel : ℕ) (codes : List Code) (order : List ℕ → List ℕ)
    (lists : ListsSet order) {r : Edges × List ℕ} {set : List ℕ}
    (scanned : scan_codes seed first codes [] [] ≡ ok r)
    (closed : close_loop fuel r.0 r.1 (order r.1) ≡ ok set) where
  edge_throws :
      (y x : ℕ)
      → MayThrow first seed codes y
      → has_edge y x r.0 ≡ true
      → MayThrow first seed codes x
  edge_throws y x t e = elim (scan_edge_from seed first codes [] [] y x scanned e) [
    | inl nothing ↦ absurd (unfold has_edge in cc)
    | inr k ↦ through k.i k.calls k.ind k.at k.body k.target t
  ]

  begin_throws : (x : ℕ) → elem x r.1 ≡ true → MayThrow first seed codes x
  begin_throws x e = elim (scan_set_from seed first codes [] [] x scanned e) [
    | inl nothing ↦ absurd (unfold elem in cc)
    | inr k ↦ begun k.i k.calls k.ind k.at k.body k.why
  ]
    where
      begun :
          (i : ℕ) (calls : List ℕ) (b : Bool)
          → x ≡ first + i
          → Body codes i calls b
          → (b ≡ true) ⊎ (elem seed calls ≡ true)
          → MayThrow first seed codes x
      begun i calls true at body w = indirect i calls at body
      begun i calls false at body (inl e) = absurd (cc)
      begun i calls false at body (inr e) = throws i calls false at body e

  set_throws : (x : ℕ) → elem x set ≡ true → MayThrow first seed codes x
  set_throws =
      close_loop_sound (MayThrow first seed codes) fuel r.0 r.1 (order r.1) edge_throws closed
        begin_throws (λ x e. begin_throws x (sym (lists.same r.1 x) ∙ e))

  Begins-in_set : (x : ℕ) → Begins codes first seed x → elem x set ≡ true
  Begins-in_set x b =
      close_loop_grows fuel r.0 r.1 (order r.1) x closed
        (scan_set_to seed first codes [] [] x scanned (inr b))

  set_closed : ClosedUpTo r.0 set []
  set_closed =
      close_loop_closes fuel r.0 r.1 (order r.1) closed (λ y c e edge. inl (lists.same r.1 y ∙ e))

  throws_in_set : (x : ℕ) → MayThrow first seed codes x → elem x set ≡ true
  throws_in_set x (indirect i calls at body) =
      Begins-in_set x
        (record { i = i; calls = calls; ind = true; at = at; body = body; why = inl refl })
  throws_in_set x (throws i calls b at body e) =
      Begins-in_set x (record { i = i; calls = calls; ind = b; at = at; body = body; why = inr e })
  throws_in_set x (through {y = y} i calls b at body e t) =
      elim (set_closed y x (throws_in_set y t) edge) [
        | inl nothing ↦ absurd (unfold elem in cc)
        | inr h ↦ h
      ]
    where
      edge : has_edge y x r.0 ≡ true
      edge =
          scan_edge_to seed first codes [] [] y x scanned
            (inr (record { i = i; calls = calls; ind = b; at = at; body = body; target = e }))

-- The numbers of `n` functions from `o` on.
indices : ℕ → ℕ → List ℕ
indices o zero = []
indices o (suc n) = o ∷ indices (o + 1) n

length-indices : (o n : ℕ) → length (indices o n) ≡ n
unfolding indices
length-indices o zero = refl
length-indices o (suc n) = ap suc (length-indices (o + 1) n)

elem-indices : (o n i : ℕ) → i < n → elem (o + i) (indices o n) ≡ true
unfolding indices elem
elem-indices o zero i h = elim h [ ]
elem-indices o (suc n) zero h = ground (arith, ==_iff (o + 0) o)
elem-indices o (suc n) (suc i) h = ground (arith, elem-indices (o + 1) n i, shift)
  where
    shift : o + suc i ≡ o + 1 + i
    shift = omega arith

stands-lt : (codes : List Code) (i : ℕ) {c : Code} → get_elem? codes i ≡ some c → i < length codes
stands-lt [] i h = cc
stands-lt (d ∷ codes) zero h = omega arith
stands-lt (d ∷ codes) (suc i) h = omega (arith, stands-lt codes i h)

-- Every body is a sequence of whole instructions that the walker knows.
abbrev pub Walks : List Code → Type 0
Walks codes = All (λ (c : Code). (f : List ℕ × Bool) × (func_calls c.body ≡ ok f)) codes

scan_total :
    (seed o : ℕ) (codes : List Code) (es : Edges) (set : List ℕ)
    → Walks codes
    → (r : Edges × List ℕ) × (scan_codes seed o codes es set ≡ ok r)
unfolding scan_codes
scan_total seed o [] es set h = ((es, set), refl)
scan_total seed o (c ∷ codes) es set ((f, e), hs) = rw e (scan_total seed (o + 1) codes _ _ hs)

-- Where the seed is imported and every body can be walked, the set is computed, in whatever order
-- the keys of the map are listed, and it holds exactly the functions that call through a table,
-- call the throw, or call such a function.
pub may_longjmp_set_exact :
    (order : List ℕ → List ℕ) (cfg : Config) (m : Module) (seed : ℕ)
    → ListsSet order
    → find_seed cfg.seed_import 0 none m.imports ≡ some seed
    → Walks m.codes
    → (set : List ℕ) × (may_longjmp_set order cfg m ≡ ok (set, seed))
      × ((x : ℕ) → (elem x set ≡ true) ↔ MayThrow (num_import_funcs m) seed m.codes x)
unfolding may_longjmp_set
may_longjmp_set_exact order cfg m seed lists found walks =
    let first = num_import_funcs m in
    let (r, scanned) = scan_total seed first m.codes [] [] walks in
    let (set, closed) = ended first r scanned in
    (
      set,
      rw (found, scanned, closed) refl,
      λ x. (
        set_throws first seed _ m.codes order lists scanned closed x,
        throws_in_set first seed _ m.codes order lists scanned closed x,
      ),
    )
  where
    ended :
        (first : ℕ) (r : Edges × List ℕ)
        → scan_codes seed first m.codes [] [] ≡ ok r
        → (set : List ℕ) × (close_loop (length (order r.1) + length m.codes) r.0 r.1 (order r.1)
            ≡ ok set)
    ended first r scanned =
        close_loop_total (indices first (length m.codes)) _ r.0 r.1 (order r.1)
          (λ y c e. elim (scan_edge_from seed first m.codes [] [] y c scanned e) [
            | inl nothing ↦ absurd (unfold has_edge in cc)
            | inr k ↦
                rw k.at
                  (elem-indices first (length m.codes) k.i (stands-lt m.codes k.i k.body.stands))
          ])
          (omega (arith, length-indices first (length m.codes)))
