-- ===== src/Pass/Reach/Closure.antt =====
-- The work list of `mayLongjmpSet` of internal/wasmpass/passes.go.
use pglite_go.Base.{
  ℕ, zero, suc, ◌+◌, ◌≤◌, ◌<◌, ◌==◌, ==_iff, ◌≡◌, subst, refl, Bool, true, false, List, [], ◌∷◌,
  length, if◌then◌else◌, arith, ◌⊎◌, inl, inr, ◌&&◌, ◌||◌, Bool-cases,
}
use pglite_go.Base.Outcome.{ok}
use pglite_go.Pass.Reach.{elem, visit, close_loop, Edges}

unfoldable pub has_edge : ℕ → ℕ → Edges → Bool
has_edge y x [] = false
has_edge y x ((a, b) ∷ es) = a == y && b == x || has_edge y x es

visit_grows :
    (x y : ℕ) (es : Edges) (set work : List ℕ)
    → elem y set ≡ true
    → elem y (visit x es set work).0 ≡ true
unfolding visit elem
visit_grows x y [] set work h = h
visit_grows x y ((a, b) ∷ es) set work h =
    ground (arith, visit_grows x y es set work, visit_grows x y es (b ∷ set) (b ∷ work))

visit_keeps_work :
    (x y : ℕ) (es : Edges) (set work : List ℕ)
    → elem y work ≡ true
    → elem y (visit x es set work).1 ≡ true
unfolding visit elem
visit_keeps_work x y [] set work h = h
visit_keeps_work x y ((a, b) ∷ es) set work h =
    ground (arith, visit_keeps_work x y es set work, visit_keeps_work x y es (b ∷ set) (b ∷ work))

visit_closes :
    (x c : ℕ) (es : Edges) (set work : List ℕ)
    → has_edge x c es ≡ true
    → elem c (visit x es set work).0 ≡ true
unfolding visit elem has_edge
visit_closes x c [] set work h = ground arith
visit_closes x c ((a, b) ∷ es) set work h = ground (
  arith,
  visit_closes x c es set work,
  visit_closes x c es (b ∷ set) (b ∷ work),
  visit_grows x c es set work,
  visit_grows x c es (b ∷ set) (b ∷ work),
)

-- What the visit adds waits in the work.
visit_adds :
    (x y : ℕ) (es : Edges) (set work : List ℕ)
    → elem y (visit x es set work).0 ≡ true
    → (elem y set ≡ true) ⊎ (elem y (visit x es set work).1 ≡ true)
unfolding visit elem
visit_adds x y [] set work h = inl h
visit_adds x y ((a, b) ∷ es) set work h = ground (
  arith,
  visit_adds x y es set work,
  visit_adds x y es (b ∷ set) (b ∷ work),
  visit_keeps_work x y es (b ∷ set) (b ∷ work),
)

-- The set is closed, but for the edges out of what waits.
abbrev pub ClosedUpTo : Edges → List ℕ → List ℕ → Type 0
ClosedUpTo es set work =
    (y c : ℕ)
    → elem y set ≡ true
    → has_edge y c es ≡ true
    → (elem y work ≡ true) ⊎ (elem c set ≡ true)

-- One visit keeps this, with `x` taken off the work.
visit-ClosedUpTo :
    (x : ℕ) (es : Edges) (set work : List ℕ)
    → ClosedUpTo es set (x ∷ work)
    → ClosedUpTo es (visit x es set work).0 (visit x es set work).1
visit-ClosedUpTo x es set work h y c hy edge = elim (visit_adds x y es set work hy) [
  | inr waits ↦ inl waits
  | inl old ↦ elim (h y c old edge) [
    | inr done ↦ inr (visit_grows x c es set work done)
    | inl waits ↦ elim (elem-cons waits) [
      | inl e ↦ inr (visit_closes x c es set work (rw e at edge))
      | inr later ↦ inl (visit_keeps_work x y es set work later)
    ]
  ]
]
  where
    elem-cons : elem y (x ∷ work) ≡ true → (y ≡ x) ⊎ (elem y work ≡ true)
    elem-cons w = unfold elem in ground arith

pub close_loop_grows :
    (fuel : ℕ) (es : Edges) (set work : List ℕ) {out : List ℕ} (y : ℕ)
    → close_loop fuel es set work ≡ ok out
    → elem y set ≡ true
    → elem y out ≡ true
unfolding close_loop
close_loop_grows zero es set [] y e h = cc
close_loop_grows (suc fuel) es set [] y e h = cc
close_loop_grows zero es set (x ∷ work) y e h = cc
close_loop_grows (suc fuel) es set (x ∷ work) y e h =
    close_loop_grows fuel es (visit x es set work).0 (visit x es set work).1 y e
      (visit_grows x y es set work h)

-- The result is closed under the edges.
pub close_loop_closes :
    (fuel : ℕ) (es : Edges) (set work : List ℕ) {out : List ℕ}
    → close_loop fuel es set work ≡ ok out
    → ClosedUpTo es set work
    → ClosedUpTo es out []
unfolding close_loop
close_loop_closes zero es set [] e h = subst (λ s. ClosedUpTo es s []) (cc) h
close_loop_closes (suc fuel) es set [] e h = subst (λ s. ClosedUpTo es s []) (cc) h
close_loop_closes zero es set (x ∷ work) e h = cc
close_loop_closes (suc fuel) es set (x ∷ work) e h =
    close_loop_closes fuel es (visit x es set work).0 (visit x es set work).1 e
      (visit-ClosedUpTo x es set work h)

visit_from :
    (x y : ℕ) (es : Edges) (set work : List ℕ)
    → elem y (visit x es set work).0 ≡ true
    → (elem y set ≡ true) ⊎ (has_edge x y es ≡ true)
unfolding visit elem has_edge
visit_from x y [] set work h = inl h
visit_from x y ((a, b) ∷ es) set work h =
    ground (arith, visit_from x y es set work, visit_from x y es (b ∷ set) (b ∷ work))

visit_work_from :
    (x y : ℕ) (es : Edges) (set work : List ℕ)
    → elem y (visit x es set work).1 ≡ true
    → (elem y work ≡ true) ⊎ (has_edge x y es ≡ true)
unfolding visit elem has_edge
visit_work_from x y [] set work h = inl h
visit_work_from x y ((a, b) ∷ es) set work h =
    ground (arith, visit_work_from x y es set work, visit_work_from x y es (b ∷ set) (b ∷ work))

abbrev pub AllIn : (ℕ → Type 0) → List ℕ → Type 0
AllIn P xs = (y : ℕ) → elem y xs ≡ true → P y

-- Whatever holds of the set and of the work and passes along the edges holds of the result.
pub close_loop_sound :
    (P : ℕ → Type 0) (fuel : ℕ) (es : Edges) (set work : List ℕ) {out : List ℕ}
    → ((y c : ℕ) → P y → has_edge y c es ≡ true → P c)
    → close_loop fuel es set work ≡ ok out
    → AllIn P set
    → AllIn P work
    → AllIn P out
unfolding close_loop
close_loop_sound P zero es set [] pass e hs hw = subst (λ s. AllIn P s) (cc) hs
close_loop_sound P (suc fuel) es set [] pass e hs hw = subst (λ s. AllIn P s) (cc) hs
close_loop_sound P zero es set (x ∷ work) pass e hs hw = cc
close_loop_sound P (suc fuel) es set (x ∷ work) pass e hs hw =
    close_loop_sound P fuel es (visit x es set work).0 (visit x es set work).1 pass e
      (λ y h. elim (visit_from x y es set work h) [
        | inl old ↦ hs y old
        | inr edge ↦ pass x y px edge
      ])
      (λ y h. elim (visit_work_from x y es set work h) [
        | inl old ↦ hw y (unfold elem in ground arith)
        | inr edge ↦ pass x y px edge
      ])
  where
    px : P x
    px = hw x (unfold elem in ground arith)

-- How many numbers of `us` the set lacks.
missing : List ℕ → List ℕ → ℕ
missing [] set = 0
missing (u ∷ us) set = if elem u set then missing us set else suc (missing us set)

missing-cons_le : (us : List ℕ) (c : ℕ) (set : List ℕ) → missing us (c ∷ set) ≤ missing us set
unfolding missing elem
missing-cons_le [] c set = omega arith
missing-cons_le (u ∷ us) c set = ground (arith, missing-cons_le us c set)

missing-cons_lt :
    (us : List ℕ) (c : ℕ) (set : List ℕ)
    → elem c us ≡ true
    → elem c set ≡ false
    → missing us (c ∷ set) < missing us set
unfolding missing elem
missing-cons_lt [] c set h k = cc
missing-cons_lt (u ∷ us) c set h k =
    ground (arith, missing-cons_le us c set, missing-cons_lt us c set, ==_iff c u, ==_iff u c)

-- A visit takes from what is missing as much as it puts on the work.
visit_measure :
    (us : List ℕ) (x : ℕ) (es : Edges) (set work : List ℕ)
    → ((c : ℕ) → has_edge x c es ≡ true → elem c us ≡ true)
    → length (visit x es set work).1 + missing us (visit x es set work).0
      ≤ length work + missing us set
unfolding visit has_edge
visit_measure us x [] set work h = omega arith
visit_measure us x ((a, b) ∷ es) set work h =
    elim (Bool-cases (a == x && (if elem b set then false else true))) [
      | inl e ↦ rw e (
          omega (
            arith,
            visit_measure us x es (b ∷ set) (b ∷ work) (λ c k. h c (ground arith)),
            missing-cons_lt us b set (h b (ground arith)) (ground arith),
          ))
      | inr e ↦ rw e (visit_measure us x es set work (λ c k. h c (ground arith)))
    ]

missing_le : (us set : List ℕ) → missing us set ≤ length us
unfolding missing
missing_le [] set = omega arith
missing_le (u ∷ us) set = ground (arith, missing_le us set)

close_loop_ends :
    (us : List ℕ) (fuel : ℕ) (es : Edges) (set work : List ℕ)
    → ((y c : ℕ) → has_edge y c es ≡ true → elem c us ≡ true)
    → length work + missing us set ≤ fuel
    → (out : List ℕ) × (close_loop fuel es set work ≡ ok out)
unfolding close_loop
close_loop_ends us zero es set [] into h = (set, refl)
close_loop_ends us (suc fuel) es set [] into h = (set, refl)
close_loop_ends us zero es set (x ∷ work) into h = absurd (omega arith)
close_loop_ends us (suc fuel) es set (x ∷ work) into h =
    close_loop_ends us fuel es (visit x es set work).0 (visit x es set work).1 into
      (omega (arith, visit_measure us x es set work (into x)))

-- With fuel for the work and for every number that an edge leads to, the loop ends.
pub close_loop_total :
    (us : List ℕ) (fuel : ℕ) (es : Edges) (set work : List ℕ)
    → ((y c : ℕ) → has_edge y c es ≡ true → elem c us ≡ true)
    → length work + length us ≤ fuel
    → (out : List ℕ) × (close_loop fuel es set work ≡ ok out)
close_loop_total us fuel es set work into h =
    close_loop_ends us fuel es set work into (omega (arith, missing_le us set))
