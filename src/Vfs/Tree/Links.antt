-- ===== src/Vfs/Tree/Links.antt =====
-- New nodes and new links in the tree of vfs/memfs.go.
use pglite_go.Base.{
  ℕ, ◌<◌, ◌≡◌, ◌≢◌, refl, sym, ◌∙◌, ap, false, Bool-cases, inl, inr, ◌⊎◌, some, [], ◌==◌, ==_iff,
  bytes_eq, bytes_eq→eq, arith,
}
use pglite_go.Vfs.Path.{Text}
use pglite_go.Vfs.Memory.{
  Children, Inode, Memory, root, is_directory, find, enter, set_node, alloc, link, attach, make_dir,
  new_node, directory,
}
use pglite_go.Vfs.Tree.{
  IsTree, IsLoose, Knows, FewerLinks, at_self, at_other, set_node-field, set_node-FewerLinks,
  find-erase,
}

ne_test : (a b : ℕ) → a ≢ b → (a == b) ≡ false
ne_test a b h = ground (arith, h)

-- The node at a new address, and at the others.
alloc_old : (i : Inode) (m : Memory) (k : ℕ) → k < m.next → (alloc i m).1.at k ≡ m.at k
alloc_old i m k h = ground (arith, h)

-- A link of the memory with a new node without children is an old one.
alloc_links :
    (i : Inode) (m : Memory) (n : ℕ)
    → i.children ≡ []
    → FewerLinks ((alloc i m).1.at n).children (m.at n).children
unfolding find
alloc_links i m n none_yet k c e = elim (Bool-cases (n == m.next)) [
  | inl fresh ↦ absurd (cc (sym (ap (λ cs. find k cs) none_yet) ∙ (rw fresh at e)))
  | inr old ↦ rw old at e
]

pub alloc-IsTree : (i : Inode) (m : Memory) → i.children ≡ [] → IsTree m → IsTree (alloc i m).1
alloc-IsTree i m none_yet t = record {
  links = λ n k c e.
      let (p, q, r) = t.links n k c (alloc_links i m n none_yet k c e) in
      let same = alloc_old i m c r in
      (
        ap (λ (j : Inode). j.parent) same ∙ p,
        ap (λ (j : Inode). j.name) same ∙ q,
        omega (arith, r),
      );
  no_parent = ap (λ (j : Inode). j.parent) (alloc_old i m root t.root_made) ∙ t.no_parent;
  root_dir = ap (λ (j : Inode). is_directory j.type) (alloc_old i m root t.root_made) ∙ t.root_dir;
  root_made = omega (arith, t.root_made);
  unmade = λ n h.
      let old : (n == m.next) ≡ false = ground (arith, h) in
      let at : (alloc i m).1.at n ≡ m.at n = rw old refl in
      ap (λ (j : Inode). j.children) at ∙ t.unmade n (omega (arith, h));
}

pub alloc-IsLoose :
    (i : Inode) (m : Memory) (c : ℕ) → i.children ≡ [] → IsLoose m c → IsLoose (alloc i m).1 c
alloc-IsLoose i m c none_yet loose n k e = loose n k (alloc_links i m n none_yet k c e)

-- Nothing links to the new node.
pub alloc_new-IsLoose :
    (i : Inode) (m : Memory) → i.children ≡ [] → IsTree m → IsLoose (alloc i m).1 m.next
alloc_new-IsLoose i m none_yet t n k e =
    absurd (omega (arith, (t.links n k m.next (alloc_links i m n none_yet k m.next e)).2))

abbrev pub named : ℕ → Text → ℕ → Memory → Memory
named dir name child m = set_node child (record (m.at child) { name = name; parent = some dir }) m

named_links :
    (dir : ℕ) (name : Text) (child n : ℕ) (m : Memory)
    → FewerLinks ((named dir name child m).at n).children (m.at n).children
named_links dir name child n m =
    set_node-FewerLinks child n (record (m.at child) { name = name; parent = some dir }) m
      (λ k c e. e)

-- Naming a loose node.
named-IsTree :
    (dir : ℕ) (name : Text) (child : ℕ) (m : Memory)
    → child ≢ root
    → IsLoose m child
    → IsTree m
    → IsTree (named dir name child m)
named-IsTree dir name child m not_root loose t =
    let i : Inode = record (m.at child) { name = name; parent = some dir } in
    let top : (root == child) ≡ false = ne_test root child (λ e. not_root (sym e)) in
    record {
      links = λ n k c e.
          let old = named_links dir name child n m k c e in
          let (p, q, r) = t.links n k c old in
          let apart : (c == child) ≡ false =
            ne_test c child (λ same. loose n k (old ∙ ap some same)) in
          let at = at_other child c i m apart in
          (ap (λ (j : Inode). j.parent) at ∙ p, ap (λ (j : Inode). j.name) at ∙ q, r);
      no_parent = ap (λ (j : Inode). j.parent) (at_other child root i m top) ∙ t.no_parent;
      root_dir = ap (λ (j : Inode). is_directory j.type) (at_other child root i m top) ∙ t.root_dir;
      root_made = t.root_made;
      unmade = λ n h. set_node-field (λ (j : Inode). j.children) child n i m refl ∙ t.unmade n h;
    }

-- What the links of a directory are behind a new one.
link_cases :
    (name : Text) (child : ℕ) (cs : Children) (k : Text) (c : ℕ)
    → find k (enter name child cs) ≡ some c
    → ((name ≡ k) × (c ≡ child)) ⊎ (find k cs ≡ some c)
unfolding find enter
link_cases name child cs k c e = elim (Bool-cases (bytes_eq name k)) [
  | inl same ↦ inl (bytes_eq→eq name k same, cc (rw same at e))
  | inr other ↦ inr (find-erase k name cs (rw other at e))
]

linked_cases :
    (dir : ℕ) (name : Text) (child : ℕ) (m : Memory) (n : ℕ) (k : Text) (c : ℕ)
    → find k ((link dir name child m).at n).children ≡ some c
    → ((n ≡ dir) × (name ≡ k) × (c ≡ child)) ⊎ (find k (m.at n).children ≡ some c)
linked_cases dir name child m n k c e = elim (Bool-cases (n == dir)) [
  | inl same ↦
      let here : n ≡ dir = (==_iff n dir).0 same in
      elim (link_cases name child (m.at dir).children k c (rw same at e)) [
        | inl (a, b) ↦ inl (here, a, b)
        | inr old ↦ inr (ap (λ (t : ℕ). find k (m.at t).children) here ∙ old)
      ]
  | inr other ↦ inr (rw other at e)
]

-- Entering a node that knows its place.
pub link-IsTree :
    (dir : ℕ) (name : Text) (child : ℕ) (m : Memory)
    → dir < m.next
    → Knows m dir name child
    → IsTree m
    → IsTree (link dir name child m)
link-IsTree dir name child m made (par, nam, below) t =
    let i : Inode = record (m.at dir) { children = enter name child (m.at dir).children } in
    let parent_of = λ (c : ℕ). set_node-field (λ (j : Inode). j.parent) dir c i m refl in
    let name_of = λ (c : ℕ). set_node-field (λ (j : Inode). j.name) dir c i m refl in
    record {
      links = λ n k c e. elim (linked_cases dir name child m n k c e) [
        | inl (here, same, new) ↦ (
          parent_of c ∙ ap (λ (x : ℕ). (m.at x).parent) new ∙ par ∙ ap some (sym here),
          name_of c ∙ ap (λ (x : ℕ). (m.at x).name) new ∙ nam ∙ same,
          omega (arith, new, below),
        )
        | inr old ↦ let (p, q, r) = t.links n k c old in (parent_of c ∙ p, name_of c ∙ q, r)
      ];
      no_parent = parent_of root ∙ t.no_parent;
      root_dir = set_node-field (λ (j : Inode). is_directory j.type) dir root i m refl ∙ t.root_dir;
      root_made = t.root_made;
      unmade = λ n h.
          ap (λ (j : Inode). j.children) (at_other dir n i m (ground (arith, h, made)))
          ∙ t.unmade n h;
    }

pub attach-IsTree :
    (dir : ℕ) (name : Text) (child : ℕ) (m : Memory)
    → dir < m.next
    → child < m.next
    → child ≢ root
    → IsLoose m child
    → IsTree m
    → IsTree (attach dir name child m)
attach-IsTree dir name child m made below not_root loose t =
    let i : Inode = record (m.at child) { name = name; parent = some dir } in
    let at = at_self child i m in
    link-IsTree dir name child (named dir name child m) made
      (ap (λ (j : Inode). j.parent) at, ap (λ (j : Inode). j.name) at, below)
      (named-IsTree dir name child m not_root loose t)

pub attach-IsLoose :
    (dir : ℕ) (name : Text) (child : ℕ) (m : Memory) (c : ℕ)
    → c ≢ child
    → IsLoose m c
    → IsLoose (attach dir name child m) c
attach-IsLoose dir name child m c apart loose n k e =
    elim (linked_cases dir name child (named dir name child m) n k c e) [
      | inl (here, same, new) ↦ apart new
      | inr old ↦ loose n k (named_links dir name child n m k c old)
    ]

-- A fresh directory under one that is there.
pub make_dir-IsTree :
    (n mode : ℕ) (part : Text) (m : Memory)
    → n < m.next
    → IsTree m
    → IsTree (make_dir n mode part m).1
make_dir-IsTree n mode part m made t =
    let i : Inode = record (new_node directory mode) { name = part; parent = some n } in
    let new : (alloc i m).1.at m.next ≡ i = ground arith in
    link-IsTree n part m.next (alloc i m).1 (omega (arith, made))
      (ap (λ (j : Inode). j.parent) new, ap (λ (j : Inode). j.name) new, omega arith)
      (alloc-IsTree i m refl t)

pub make_dir-IsLoose :
    (n mode : ℕ) (part : Text) (m : Memory) (c : ℕ)
    → c < m.next
    → IsLoose m c
    → IsLoose (make_dir n mode part m).1 c
make_dir-IsLoose n mode part m c below loose k j e =
    let i : Inode = record (new_node directory mode) { name = part; parent = some n } in
    elim (linked_cases n part m.next (alloc i m).1 k j c e) [
      | inl (here, same, new) ↦ absurd (omega (arith, new, below))
      | inr old ↦ alloc-IsLoose i m c refl loose k j old
    ]
