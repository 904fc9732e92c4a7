-- ===== src/Vfs/Tree/Layer.antt =====
-- The operations of vfs/memfs.go and the copy-up of vfs/vfs.go keep the nodes a tree.
use pglite_go.Base.{
  ℕ, ◌<◌, ◌≤◌, ◌≡◌, ◌≢◌, refl, ap, Bool-cases, inl, inr, Option, none, some, List, [], ◌∷◌, arith,
}
use pglite_go.Base.Outcome.{Outcome, ok}
use pglite_go.Base.Action.{continue, Holds, Holds-continue, Holds-mono}
use pglite_go.Vfs.Path.{Text, split_name, join_slash}
use pglite_go.Vfs.Memory.{
  Inode, Memory, root, is_directory, is_whiteout, find, alloc, attach, make_dir, enter_dir,
  mkdir_loop, mkdir_all, place, place_parts, place_new, parts_front, parts_last,
}
use pglite_go.Vfs.Tree.{IsTree, IsLoose}
use pglite_go.Vfs.Tree.Links.{
  alloc-IsTree, alloc-IsLoose, alloc_new-IsLoose, attach-IsTree, attach-IsLoose, make_dir-IsTree,
  make_dir-IsLoose,
}

-- What every call keeps: the tree, the addresses in use, and the nodes without a link, apart from
-- the one that the call may link.
pub record Grows (x : Option ℕ) (m s : Memory) : Type 0 where
  pub tree : IsTree s
  pub more : m.next ≤ s.next
  pub loose : (c : ℕ) → some c ≢ x → c < m.next → IsLoose m c → IsLoose s c

pub Grows-refl : (m : Memory) → IsTree m → Grows none m m
Grows-refl m t = record { tree = t; more = omega arith; loose = λ c apart below l. l }

pub Grows-but : (x : Option ℕ) {m s : Memory} → Grows none m s → Grows x m s
Grows-but x g = record {
  tree = g.tree;
  more = g.more;
  loose = λ c apart below l. g.loose c (λ e. cc e) below l;
}

pub Grows-trans : (x : Option ℕ) {m s r : Memory} → Grows none m s → Grows x s r → Grows x m r
Grows-trans x {m} {s} {r} g h = record {
  tree = h.tree;
  more = omega (arith, g.more, h.more);
  loose = λ c apart below l.
      h.loose c apart (omega (arith, below, g.more)) (g.loose c (λ e. cc e) below l);
}

abbrev pub Made : ℕ → Memory → Type 0
Made n m = n < m.next

-- A call keeps the tree, and its result is an address in use.
abbrev pub Keeps : Memory → Outcome ℕ × Memory → Type 0
Keeps m r = Holds (Grows none m) Made r

make_dir-Grows :
    (n mode : ℕ) (part : Text) (m : Memory)
    → Made n m
    → IsTree m
    → Grows none m (make_dir n mode part m).1
make_dir-Grows n mode part m made t = record {
  tree = make_dir-IsTree n mode part m made t;
  more = omega arith;
  loose = λ c apart below l. make_dir-IsLoose n mode part m c below l;
}

enter_dir-Keeps :
    (n mode : ℕ) (part : Text) (o : Option ℕ) (m : Memory)
    → Made n m
    → ((c : ℕ) → o ≡ some c → Made c m)
    → IsTree m
    → Keeps m (enter_dir n mode part o m)
enter_dir-Keeps n mode part none m made child t = (make_dir-Grows n mode part m made t, omega arith)
enter_dir-Keeps n mode part (some c) m made child t =
    elim (Bool-cases (is_whiteout (m.at c).type)) [
      | inl white ↦ rw white (make_dir-Grows n mode part m made t, omega arith)
      | inr other ↦ elim (Bool-cases (is_directory (m.at c).type)) [
        | inl dir ↦ rw (other, dir) (Grows-refl m t, child c refl)
        | inr file ↦ rw (other, file) (Grows-refl m t)
      ]
    ]

mkdir_loop-Keeps :
    (n mode : ℕ) (parts : List Text) (m : Memory)
    → Made n m
    → IsTree m
    → Keeps m (mkdir_loop n mode parts m)
unfolding mkdir_loop
mkdir_loop-Keeps n mode [] m made t = (Grows-refl m t, made)
mkdir_loop-Keeps n mode (part ∷ parts) m made t = elim (Bool-cases (is_directory (m.at n).type)) [
  | inl dir ↦
      let child = find part (m.at n).children in
      let below : (c : ℕ) → child ≡ some c → Made c m =
        λ c e. let (p, q, r) = t.links n part c e in r in
      let all : Keeps m (continue (enter_dir n mode part child m) (λ c. mkdir_loop c mode parts)) =
        Holds-continue Made (enter_dir n mode part child m) (λ c. mkdir_loop c mode parts)
          (λ s g. g)
          (λ c s g made'.
            Holds-mono (mkdir_loop c mode parts s) (λ r h. Grows-trans none g h) (λ a r h p. p)
              (mkdir_loop-Keeps c mode parts s made' g.tree))
          (enter_dir-Keeps n mode part child m made below t) in
      rw dir all
  | inr file ↦ rw file (Grows-refl m t)
]

pub mkdir_all-Keeps :
    (name : Text) (mode : ℕ) (m : Memory) → IsTree m → Keeps m (mkdir_all name mode m)
unfolding mkdir_all
mkdir_all-Keeps name mode m t = mkdir_loop-Keeps root mode (split_name name) m t.root_made t

-- `place` links the child and nothing else.
abbrev pub Placed : ℕ → Memory → Outcome ℕ × Memory → Type 0
Placed child m r = Holds (Grows (some child) m) (λ k s. k ≡ child) r

attach-Grows :
    (dir : ℕ) (name : Text) (child : ℕ) (m s : Memory)
    → child ≢ root
    → Made child m
    → IsLoose m child
    → Grows none m s
    → Made dir s
    → Grows (some child) m (attach dir name child s)
attach-Grows dir name child m s not_root below l g made = record {
  tree =
      attach-IsTree dir name child s made (omega (arith, below, g.more)) not_root
        (g.loose child (λ e. cc e) below l) g.tree;
  more = g.more;
  loose = λ c apart below' l'.
      attach-IsLoose dir name child s c (λ e. apart (ap some e)) (g.loose c (λ e. cc e) below' l');
}

place_parts-Placed :
    (parts : List Text) (child : ℕ) (m : Memory)
    → child ≢ root
    → Made child m
    → IsLoose m child
    → IsTree m
    → Placed child m (place_parts parts child m)
place_parts-Placed [] child m not_root below l t = Grows-but (some child) (Grows-refl m t)
place_parts-Placed (p ∷ ps) child m not_root below l t =
    Holds-continue (λ k s. k ≡ child) (mkdir_all (join_slash (parts_front p ps)) 0o755 m)
      (λ dir m'. (ok child, attach dir (parts_last p ps) child m'))
      (λ s g. Grows-but (some child) g)
      (λ dir s g made. (attach-Grows dir (parts_last p ps) child m s not_root below l g made, refl))
      (mkdir_all-Keeps (join_slash (parts_front p ps)) 0o755 m t)

pub place-Placed :
    (name : Text) (child : ℕ) (m : Memory)
    → child ≢ root
    → Made child m
    → IsLoose m child
    → IsTree m
    → Placed child m (place name child m)
unfolding place
place-Placed name child m = place_parts-Placed (split_name name) child m

-- An address in use that is not the root.
abbrev pub MadeBelow : ℕ → Memory → Type 0
MadeBelow n m = Made n m × (n ≢ root)

pub place_new-Keeps :
    (name : Text) (i : Inode) (m : Memory)
    → i.children ≡ []
    → IsTree m
    → Holds (Grows none m) MadeBelow (place_new name i m)
unfolding place_new
place_new-Keeps name i m empty t =
    Holds-mono (place name m.next (alloc i m).1)
      (λ s g. record {
        tree = g.tree;
        more = omega (arith, g.more);
        loose = λ c apart below l.
            g.loose c (λ e. absurd (omega (arith, below, some_inj e))) (omega (arith, below))
              (alloc-IsLoose i m c empty l);
      })
      (λ k s g e. (omega (arith, e, g.more), λ top. absurd (omega (arith, e, top, t.root_made))))
      (place-Placed name m.next (alloc i m).1 (λ top. absurd (omega (arith, top, t.root_made)))
        (omega arith) (alloc_new-IsLoose i m empty t) (alloc-IsTree i m empty t))
  where
    some_inj : {a b : ℕ} → some a ≡ some b → a ≡ b
    some_inj e = cc e
