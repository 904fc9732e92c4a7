-- ===== src/Pass/Reach/Scan.antt =====
-- The scan over the bodies: the call edges and the functions to begin with.
use pglite_go.Base.{
  ℕ, zero, suc, ◌+◌, ◌==◌, ==_iff, ◌≡◌, refl, Bool, true, some, List, [], ◌∷◌, ◌++◌, if◌then◌else◌,
  arith, ◌⊎◌, inl, inr, ◌&&◌, ◌||◌, get_elem?,
}
use pglite_go.Base.Outcome.{ok, >>=-eq-ok}
use pglite_go.Wasm.Model.{Code}
use pglite_go.Pass.Walk.{func_calls}
use pglite_go.Pass.Reach.{elem, insert, Edges, add_calls, scan_codes}
use pglite_go.Pass.Reach.Closure.{has_edge}

-- Function `i` of the module calls the functions `calls`, and `indirect` says whether it has a
-- `call_indirect`.
pub record Body (codes : List Code) (i : ℕ) (calls : List ℕ) (indirect : Bool) : Type 0 where
  pub code : Code
  pub stands : get_elem? codes i ≡ some code
  pub walked : func_calls code.body ≡ ok (calls, indirect)

has_edge-snoc :
    (y x a b : ℕ) (es : Edges)
    → has_edge y x (es ++ ((a, b) ∷ [])) ≡ (has_edge y x es || (a == y && b == x))
unfolding has_edge
has_edge-snoc y x a b [] = ground arith
has_edge-snoc y x a b ((c, d) ∷ es) = ground (arith, has_edge-snoc y x a b es)

-- The edges and the set after the calls of one function.
add_calls_edges :
    (seed o : ℕ) (calls : List ℕ) (es : Edges) (set : List ℕ) (y x : ℕ)
    → has_edge y x (add_calls seed o calls es set).0 ≡ (has_edge y x es || (elem y calls && o == x))
unfolding add_calls elem
add_calls_edges seed o [] es set y x = ground arith
add_calls_edges seed o (c ∷ calls) es set y x = ground (
  arith,
  add_calls_edges seed o calls (es ++ ((c, o) ∷ [])) (if c == seed then insert o set else set) y x,
  has_edge-snoc y x c o es,
)

elem-insert : (x y : ℕ) (set : List ℕ) → elem x (insert y set) ≡ (x == y || elem x set)
unfolding insert elem
elem-insert x y set = ground (arith, ==_iff x y)

add_calls_set :
    (seed o : ℕ) (calls : List ℕ) (es : Edges) (set : List ℕ) (x : ℕ)
    → elem x (add_calls seed o calls es set).1 ≡ (elem x set || (elem seed calls && x == o))
unfolding add_calls elem
add_calls_set seed o [] es set x = ground arith
add_calls_set seed o (c ∷ calls) es set x = ground (
  arith,
  add_calls_set seed o calls (es ++ ((c, o) ∷ [])) (if c == seed then insert o set else set) x,
  elem-insert x o set,
)

-- Function `x` of the scan, which counts from `o`, calls `y`; or it is a function to begin with.
pub record Calls (codes : List Code) (o y x : ℕ) : Type 0 where
  pub i : ℕ
  pub calls : List ℕ
  pub ind : Bool
  pub at : x ≡ o + i
  pub body : Body codes i calls ind
  pub target : elem y calls ≡ true

pub record Begins (codes : List Code) (o seed x : ℕ) : Type 0 where
  pub i : ℕ
  pub calls : List ℕ
  pub ind : Bool
  pub at : x ≡ o + i
  pub body : Body codes i calls ind
  pub why : (ind ≡ true) ⊎ (elem seed calls ≡ true)

Body-head :
    (code : Code) (codes : List Code) (f : List ℕ × Bool)
    → func_calls code.body ≡ ok f
    → Body (code ∷ codes) 0 f.0 f.1
Body-head code codes f e = record { code = code; stands = refl; walked = e }

Body-tail :
    {c : Code} {codes : List Code} {i : ℕ} {calls : List ℕ} {b : Bool}
    → Body codes i calls b
    → Body (c ∷ codes) (suc i) calls b
Body-tail h = record { code = h.code; stands = h.stands; walked = h.walked }

-- The head of the list is the only function at 0.
Body-zero :
    {c : Code} {codes : List Code} {calls : List ℕ} {b : Bool} (f : List ℕ × Bool)
    → func_calls c.body ≡ ok f
    → Body (c ∷ codes) 0 calls b
    → f ≡ (calls, b)
Body-zero f e h = cc (e, h.walked, h.stands)

abbrev set_of : ℕ → ℕ → List ℕ × Bool → List ℕ → List ℕ
set_of seed o f set = (if f.1 then insert o set else set)

scan_step :
    (seed o : ℕ) (c : Code) (codes : List Code) (es : Edges) (set : List ℕ) {r : Edges × List ℕ}
    → scan_codes seed o (c ∷ codes) es set ≡ ok r
    → (f : List ℕ × Bool) × (func_calls c.body ≡ ok f)
      × (scan_codes seed
            (o + 1)
            codes
            (add_calls seed o f.0 es (set_of seed o f set)).0
            (add_calls seed o f.0 es (set_of seed o f set)).1
          ≡ ok r)
unfolding scan_codes
scan_step seed o c codes es set h = >>=-eq-ok (func_calls c.body) _ h

pub scan_edge_from :
    (seed o : ℕ) (codes : List Code) (es : Edges) (set : List ℕ) {r : Edges × List ℕ} (y x : ℕ)
    → scan_codes seed o codes es set ≡ ok r
    → has_edge y x r.0 ≡ true
    → (has_edge y x es ≡ true) ⊎ Calls codes o y x
scan_edge_from seed o [] es set y x h e = inl (unfold scan_codes in ground arith)
scan_edge_from seed o (c ∷ codes) es set y x h e =
    let (f, walked, h') = scan_step seed o c codes es set h in
    elim (scan_edge_from seed (o + 1) codes _ _ y x h' e) [
      | inr k ↦ inr (record {
        i = suc k.i;
        calls = k.calls;
        ind = k.ind;
        at = omega (arith, k.at);
        body = Body-tail k.body;
        target = k.target;
      })
      | inl k ↦ elim (here f k) [
        | inl old ↦ inl old
        | inr (t, eq) ↦ inr (record {
          i = 0;
          calls = f.0;
          ind = f.1;
          at = omega arith;
          body = Body-head c codes f walked;
          target = t;
        })
      ]
    ]
  where
    here :
        (f : List ℕ × Bool)
        → has_edge y x (add_calls seed o f.0 es (set_of seed o f set)).0 ≡ true
        → (has_edge y x es ≡ true) ⊎ ((elem y f.0 ≡ true) × (o ≡ x))
    here f k = ground (arith, add_calls_edges seed o f.0 es (set_of seed o f set) y x)

pub scan_edge_to :
    (seed o : ℕ) (codes : List Code) (es : Edges) (set : List ℕ) {r : Edges × List ℕ} (y x : ℕ)
    → scan_codes seed o codes es set ≡ ok r
    → (has_edge y x es ≡ true) ⊎ Calls codes o y x
    → has_edge y x r.0 ≡ true
scan_edge_to seed o [] es set y x h (inl e) = unfold scan_codes in ground arith
scan_edge_to seed o [] es set y x h (inr k) = absurd (ground (arith, k.body.stands))
scan_edge_to seed o (c ∷ codes) es set y x h (inl e) =
    let (f, walked, h') = scan_step seed o c codes es set h in
    scan_edge_to seed (o + 1) codes _ _ y x h'
      (inl (ground (arith, add_calls_edges seed o f.0 es (set_of seed o f set) y x)))
scan_edge_to seed o (c ∷ codes) es set y x h (inr k) =
    let (f, walked, h') = scan_step seed o c codes es set h in
    scan_edge_to seed (o + 1) codes _ _ y x h'
      (later f walked k.i k.calls k.ind k.at k.body k.target)
  where
    later :
        (f : List ℕ × Bool)
        → func_calls c.body ≡ ok f
        → (i : ℕ) (calls : List ℕ) (b : Bool) → x ≡ o + i
        → Body (c ∷ codes) i calls b
        → elem y calls ≡ true
        → (has_edge y x (add_calls seed o f.0 es (set_of seed o f set)).0 ≡ true)
          ⊎ Calls codes (o + 1) y x
    later f walked zero calls b at body t = inl (
        ground
          (arith, add_calls_edges seed o f.0 es (set_of seed o f set) y x, Body-zero f walked body))
    later f walked (suc i) calls b at body t = inr (record {
      i = i;
      calls = calls;
      ind = b;
      at = omega arith;
      body = record { code = body.code; stands = body.stands; walked = body.walked };
      target = t;
    })

set_step :
    (seed o x : ℕ) (f : List ℕ × Bool) (es : Edges) (set : List ℕ)
    → elem x (add_calls seed o f.0 es (set_of seed o f set)).1
      ≡ (elem x set || (x == o && (f.1 || elem seed f.0)))
set_step seed o x f es set =
    ground (arith, add_calls_set seed o f.0 es (set_of seed o f set) x, elem-insert x o set)

pub scan_set_from :
    (seed o : ℕ) (codes : List Code) (es : Edges) (set : List ℕ) {r : Edges × List ℕ} (x : ℕ)
    → scan_codes seed o codes es set ≡ ok r
    → elem x r.1 ≡ true
    → (elem x set ≡ true) ⊎ Begins codes o seed x
scan_set_from seed o [] es set x h e = inl (unfold scan_codes in ground arith)
scan_set_from seed o (c ∷ codes) es set x h e =
    let (f, walked, h') = scan_step seed o c codes es set h in
    elim (scan_set_from seed (o + 1) codes _ _ x h' e) [
      | inr k ↦ inr (record {
        i = suc k.i;
        calls = k.calls;
        ind = k.ind;
        at = omega (arith, k.at);
        body = Body-tail k.body;
        why = k.why;
      })
      | inl k ↦ elim (here f k) [
        | inl old ↦ inl old
        | inr (eq, w) ↦ inr (record {
          i = 0;
          calls = f.0;
          ind = f.1;
          at = omega (arith, eq);
          body = Body-head c codes f walked;
          why = w;
        })
      ]
    ]
  where
    here :
        (f : List ℕ × Bool)
        → elem x (add_calls seed o f.0 es (set_of seed o f set)).1 ≡ true
        → (elem x set ≡ true) ⊎ ((x ≡ o) × ((f.1 ≡ true) ⊎ (elem seed f.0 ≡ true)))
    here f k = ground (arith, set_step seed o x f es set, ==_iff x o)

pub scan_set_to :
    (seed o : ℕ) (codes : List Code) (es : Edges) (set : List ℕ) {r : Edges × List ℕ} (x : ℕ)
    → scan_codes seed o codes es set ≡ ok r
    → (elem x set ≡ true) ⊎ Begins codes o seed x
    → elem x r.1 ≡ true
scan_set_to seed o [] es set x h (inl e) = unfold scan_codes in ground arith
scan_set_to seed o [] es set x h (inr k) = absurd (ground (arith, k.body.stands))
scan_set_to seed o (c ∷ codes) es set x h (inl e) =
    let (f, walked, h') = scan_step seed o c codes es set h in
    scan_set_to seed (o + 1) codes _ _ x h' (inl (ground (arith, set_step seed o x f es set)))
scan_set_to seed o (c ∷ codes) es set x h (inr k) =
    let (f, walked, h') = scan_step seed o c codes es set h in
    scan_set_to seed (o + 1) codes _ _ x h' (later f walked k.i k.calls k.ind k.at k.body k.why)
  where
    later :
        (f : List ℕ × Bool)
        → func_calls c.body ≡ ok f
        → (i : ℕ) (calls : List ℕ) (b : Bool) → x ≡ o + i
        → Body (c ∷ codes) i calls b
        → (b ≡ true) ⊎ (elem seed calls ≡ true)
        → (elem x (add_calls seed o f.0 es (set_of seed o f set)).1 ≡ true)
          ⊎ Begins codes (o + 1) seed x
    later f walked zero calls b at body w =
        inl (ground (arith, set_step seed o x f es set, Body-zero f walked body, ==_iff x o))
    later f walked (suc i) calls b at body w = inr (record {
      i = i;
      calls = calls;
      ind = b;
      at = omega arith;
      body = record { code = body.code; stands = body.stands; walked = body.walked };
      why = w;
    })
