-- ===== src/Vfs/Tree.antt =====
-- The nodes of vfs/memfs.go as a tree: every link is the only one to its node, and the node knows
-- its directory and its name.
pub mod Links
pub mod Layer
pub mod Copy
pub mod Lookup
pub mod Calls
pub mod Files
pub mod Streams
pub mod Climb
pub mod Reach
pub mod Kept
pub mod Reaches
pub mod Found
pub mod Gone
use pglite_go.Base.{
  ℕ, zero, suc, ◌+◌, ◌<◌, ◌≤◌, ◌≡◌, ◌≢◌, refl, sym, ◌∙◌, ap, subst, Bool, true, false, Bool-cases,
  Option-cases, inl, inr, ◌⊎◌, Option, none, some, List, [], ◌∷◌, ◌==◌, ==_iff, if◌then◌else◌,
  bytes_eq, bytes_eq→eq, bytes_eq_refl, arith,
}
use pglite_go.Base.Outcome.{Outcome, ok, err, panic, stuck}
use pglite_go.Base.Action.{Act, continue, ◌>>=◌}
use pglite_go.Vfs.Path.{Text}
use pglite_go.Vfs.Memory.{
  Children, Inode, Memory, FileType, directory, root, is_directory, is_whiteout, find, erase, enter,
  set_node, alloc, link, unlink, detach, detach_from, attach, make_dir, enter_dir, new_node,
  new_mem_fs, mkdir_loop, mkdir_all, place, place_parts, place_new, parts_front, parts_last, walk,
  get,
}

find-erase_self : (name : Text) (cs : Children) → find name (erase name cs) ≡ none
unfolding find erase
find-erase_self name [] = refl
find-erase_self name ((k, n) ∷ cs) = elim (Bool-cases (bytes_eq k name)) [
  | inl same ↦ rw same (find-erase_self name cs)
  | inr other ↦ rw (other, other) (find-erase_self name cs)
]

-- Erasing a name takes no other link away.
find-erase_ne :
    (k name : Text) (cs : Children) → bytes_eq name k ≡ false → find k (erase name cs) ≡ find k cs
unfolding find erase
find-erase_ne k name [] h = refl
find-erase_ne k name ((j, n) ∷ cs) h = elim (Bool-cases (bytes_eq j name)) [
  | inl same ↦
      let j_k : bytes_eq j k ≡ false =
        subst (λ t. bytes_eq t k ≡ false) (sym (bytes_eq→eq j name same)) h in
      rw (same, j_k) (find-erase_ne k name cs h)
  | inr other ↦ rw other (ap (λ o. if bytes_eq j k then some n else o) (find-erase_ne k name cs h))
]

-- What erasing leaves was there.
find-erase :
    (k name : Text) (cs : Children) {c : ℕ} → find k (erase name cs) ≡ some c → find k cs ≡ some c
find-erase k name cs e = elim (Bool-cases (bytes_eq name k)) [
  | inl same ↦ absurd (
      cc (
        sym (find-erase_self name cs)
        ∙ ap (λ t. find t (erase name cs)) (bytes_eq→eq name k same)
        ∙ e))
  | inr other ↦ sym (find-erase_ne k name cs other) ∙ e
]

-- No directory has a link to the node.
abbrev pub IsLoose : Memory → ℕ → Type 0
IsLoose m c = (n : ℕ) (k : Text) → find k (m.at n).children ≢ some c

-- The node at the end of a link knows where it is.
abbrev pub Knows : Memory → ℕ → Text → ℕ → Type 0
Knows m n k c = ((m.at c).parent ≡ some n) × ((m.at c).name ≡ k) × (c < m.next)

pub record IsTree (m : Memory) : Type 0 where
  pub links : (n : ℕ) (k : Text) (c : ℕ) → find k (m.at n).children ≡ some c → Knows m n k c
  pub no_parent : (m.at root).parent ≡ none
  pub root_dir : is_directory (m.at root).type ≡ true
  pub root_made : root < m.next
  pub unmade : (n : ℕ) → m.next ≤ n → (m.at n).children ≡ []

pub new_mem_fs-IsTree : IsTree new_mem_fs
unfolding find
new_mem_fs-IsTree = record {
  links = λ n k c e. absurd (cc e);
  no_parent = refl;
  root_dir = refl;
  root_made = omega arith;
  unmade = λ n h. refl;
}

-- What a node's replacement leaves as it was.
abbrev pub SamePlace : Inode → Inode → Type 0
SamePlace i j = (i.parent ≡ j.parent) × (i.name ≡ j.name) × (i.type ≡ j.type)

abbrev pub FewerLinks : Children → Children → Type 0
FewerLinks cs ds = (k : Text) (c : ℕ) → find k cs ≡ some c → find k ds ≡ some c

pub at_self : (n : ℕ) (i : Inode) (m : Memory) → (set_node n i m).at n ≡ i
at_self n i m = ground arith

pub at_other :
    (n k : ℕ) (i : Inode) (m : Memory) → (k == n) ≡ false → (set_node n i m).at k ≡ m.at k
at_other n k i m e = rw e refl

-- A field that the replacement shares is unchanged everywhere.
pub set_node-field :
    {A : Type 0} (f : Inode → A) (n k : ℕ) (i : Inode) (m : Memory)
    → f i ≡ f (m.at n)
    → f ((set_node n i m).at k) ≡ f (m.at k)
set_node-field f n k i m e = elim (Bool-cases (k == n)) [
  | inl same ↦ rw same (e ∙ ap (λ (t : ℕ). f (m.at t)) (sym ((==_iff k n).0 same)))
  | inr other ↦ rw other refl
]

pub set_node-FewerLinks :
    (n k : ℕ) (i : Inode) (m : Memory)
    → FewerLinks i.children (m.at n).children
    → FewerLinks ((set_node n i m).at k).children (m.at k).children
set_node-FewerLinks n k i m h = elim (Bool-cases (k == n)) [
  | inl same ↦
      subst (λ (t : ℕ). FewerLinks ((set_node n i m).at t).children (m.at t).children)
        (sym ((==_iff k n).0 same))
        (subst (λ (j : Inode). FewerLinks j.children (m.at n).children) (sym (at_self n i m)) h)
  | inr other ↦
      subst (λ (j : Inode). FewerLinks j.children (m.at k).children) (sym (at_other n k i m other))
        (λ t c e. e)
]

no_links : (cs : Children) → FewerLinks cs [] → cs ≡ []
unfolding find
no_links [] h = refl
no_links ((k, n) ∷ cs) h = absurd (cc (h k n (rw (bytes_eq_refl k) refl)))

-- A replacement that adds no link keeps the tree.
pub set_node-IsTree :
    (n : ℕ) (i : Inode) (m : Memory)
    → SamePlace i (m.at n)
    → FewerLinks i.children (m.at n).children
    → IsTree m
    → IsTree (set_node n i m)
set_node-IsTree n i m (par, nam, typ) fewer t = record {
  links = λ N k c e.
      let (p, q, r) = t.links N k c (set_node-FewerLinks n N i m fewer k c e) in
      (
        set_node-field (λ (j : Inode). j.parent) n c i m par ∙ p,
        set_node-field (λ (j : Inode). j.name) n c i m nam ∙ q,
        r,
      );
  no_parent = set_node-field (λ (j : Inode). j.parent) n root i m par ∙ t.no_parent;
  root_dir =
      set_node-field (λ (j : Inode). is_directory j.type) n root i m (ap is_directory typ)
      ∙ t.root_dir;
  root_made = t.root_made;
  unmade = λ k h. no_links ((set_node n i m).at k).children (
      subst (λ (cs : Children). FewerLinks ((set_node n i m).at k).children cs) (t.unmade k h)
        (set_node-FewerLinks n k i m fewer));
}

pub set_node-IsLoose :
    (n : ℕ) (i : Inode) (m : Memory) (c : ℕ)
    → FewerLinks i.children (m.at n).children
    → IsLoose m c
    → IsLoose (set_node n i m) c
set_node-IsLoose n i m c fewer h N k e = h N k (set_node-FewerLinks n N i m fewer k c e)

erase-FewerLinks : (name : Text) (cs : Children) → FewerLinks (erase name cs) cs
erase-FewerLinks name cs k c e = find-erase k name cs e

pub unlink-IsTree : (dir : ℕ) (name : Text) (m : Memory) → IsTree m → IsTree (unlink dir name m)
unlink-IsTree dir name m t =
    set_node-IsTree dir (record (m.at dir) { children = erase name (m.at dir).children }) m
      (refl, refl, refl) (erase-FewerLinks name (m.at dir).children) t

-- A node that its directory has dropped is loose.
unlink-IsLoose :
    (dir : ℕ) (n : ℕ) (m : Memory)
    → IsTree m
    → (m.at n).parent ≡ some dir
    → IsLoose (unlink dir (m.at n).name m) n
unlink-IsLoose dir n m t par N k e =
    let cs = (m.at dir).children in
    let i : Inode = record (m.at dir) { children = erase (m.at n).name cs } in
    let (p, q, r) =
      t.links N k n (set_node-FewerLinks dir N i m (erase-FewerLinks (m.at n).name cs) k n e) in
    let here : N ≡ dir = cc (p, par) in
    let gone : find k (erase (m.at n).name cs) ≡ some n =
      ap (λ (j : Inode). find k j.children) (sym (at_self dir i m))
      ∙ subst (λ (t' : ℕ). find k ((set_node dir i m).at t').children ≡ some n) here e in
    cc (
      sym gone
      ∙ ap (λ t'. find t' (erase (m.at n).name cs)) (sym q)
      ∙ find-erase_self (m.at n).name cs)

detach_from-IsTree :
    (o : Option ℕ) (name : Text) (m : Memory) → IsTree m → IsTree (detach_from o name m)
detach_from-IsTree none name m t = t
detach_from-IsTree (some dir) name m t = unlink-IsTree dir name m t

pub detach-IsTree : (n : ℕ) (m : Memory) → IsTree m → IsTree (detach n m)
detach-IsTree n m t = detach_from-IsTree (m.at n).parent (m.at n).name m t

pub detach-IsLoose : (n : ℕ) (m : Memory) → IsTree m → IsLoose (detach n m) n
detach-IsLoose n m t = elim (Option-cases (m.at n).parent) [
  | inl top ↦ λ N k. rw top (λ e. cc (sym top ∙ (t.links N k n e).0))
  | inr (dir, e) ↦
      subst (λ o. IsLoose (detach_from o (m.at n).name m) n) (sym e) (unlink-IsLoose dir n m t e)
]
