-- ===== src/Vfs/Tree/Climb.antt =====
-- A node of vfs/memfs.go has one path, and no directory is below itself.
use pglite_go.Base.{
  append-nil, ℕ, ◌+◌, ◌≡◌, ◌≢◌, refl, sym, ◌∙◌, ap, subst, some, Option-cases, Bool-cases, inl, inr,
  List, [], ◌∷◌, ◌++◌, length, arith,
}
use pglite_go.Vfs.Path.{Text, reverse_onto}
use pglite_go.Vfs.Memory.{Memory, root, is_directory, find, walk}
use pglite_go.Vfs.Tree.{IsTree}

-- The names from a node up to the root.
unfoldable pub Climbs : Memory → List Text → ℕ → Type 0
Climbs m [] c = c ≡ root
Climbs m (p ∷ ps) c = (d : ℕ) × (find p (m.at d).children ≡ some c) × Climbs m ps d

pub walk-Climbs :
    (m : Memory) (n : ℕ) (above parts : List Text) (c : ℕ)
    → Climbs m above n
    → walk m n parts ≡ some c
    → Climbs m (reverse_onto parts above) c
unfolding walk Climbs
walk-Climbs m n above [] c up e = subst (λ (k : ℕ). Climbs m above k) (cc e) up
walk-Climbs m n above (p ∷ ps) c up e = elim (Bool-cases (is_directory (m.at n).type)) [
  | inr file ↦ absurd (cc (rw file at e))
  | inl dir ↦ elim (Option-cases (find p (m.at n).children)) [
    | inl gone ↦ absurd (cc (rw (dir, gone) at e))
    | inr (k, at) ↦ walk-Climbs m k (p ∷ above) ps c (n, at, up) (rw (dir, at) at e)
  ]
]

pub Climbs-unique :
    (m : Memory) (ps qs : List Text) (c : ℕ) → IsTree m → Climbs m ps c → Climbs m qs c → ps ≡ qs
unfolding Climbs
Climbs-unique m [] [] c t up up' = refl
Climbs-unique m [] (q ∷ qs) c t top (d, at, up) =
    absurd (cc (sym t.no_parent ∙ ap (λ (k : ℕ). (m.at k).parent) (sym top) ∙ (t.links d q c at).0))
Climbs-unique m (p ∷ ps) [] c t (d, at, up) top =
    absurd (cc (sym t.no_parent ∙ ap (λ (k : ℕ). (m.at k).parent) (sym top) ∙ (t.links d p c at).0))
Climbs-unique m (p ∷ ps) (q ∷ qs) c t (d, at, up) (d', at', up') =
    let (par, nam, b) = t.links d p c at in
    let (par', nam', b') = t.links d' q c at' in
    let same : d' ≡ d = cc (par, par') in
    let rest = Climbs-unique m ps qs d t up (subst (λ (k : ℕ). Climbs m qs k) same up') in
    cc (sym nam ∙ nam', rest)

reverse_twice :
    (ps above out : List Text)
    → reverse_onto (reverse_onto ps above) out ≡ reverse_onto above (ps ++ out)
reverse_twice [] above out = refl
reverse_twice (p ∷ ps) above out = reverse_twice ps (p ∷ above) out

pub reverse_back : (ps : List Text) → reverse_onto (reverse_onto ps []) [] ≡ ps
reverse_back ps = reverse_twice ps [] [] ∙ append-nil ps

length-reverse_onto :
    (ps above : List Text) → length (reverse_onto ps above) ≡ length ps + length above
length-reverse_onto [] above = omega arith
length-reverse_onto (p ∷ ps) above = let e = length-reverse_onto ps (p ∷ above) in omega (arith, e)

-- No way down leads back to where it began.
pub walk-ne :
    (m : Memory) (n : ℕ) (above : List Text) (p : Text) (ps : List Text) (d : ℕ)
    → IsTree m
    → Climbs m above n
    → walk m n (p ∷ ps) ≡ some d
    → n ≢ d
walk-ne m n above p ps d t up e same =
    let here = subst (λ (k : ℕ). Climbs m above k) same up in
    let there = walk-Climbs m n above (p ∷ ps) d up e in
    let long = length-reverse_onto ps (p ∷ above) in
    let equal : length above ≡ length (reverse_onto ps (p ∷ above)) =
      ap length (Climbs-unique m above (reverse_onto (p ∷ ps) above) d t here there) in
    absurd (omega (arith, long, equal))
