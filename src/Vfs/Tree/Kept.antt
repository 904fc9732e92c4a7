-- ===== src/Vfs/Tree/Kept.antt =====
-- What mkdirAll of vfs/memfs.go keeps of the nodes that are there.
use pglite_go.Base.{
  ℕ, ◌<◌, ◌≤◌, ◌≡◌, refl, sym, ◌∙◌, ap, subst, true, false, Bool-cases, inl, inr, some, ◌==◌,
  ==_iff, ltb, bytes_eq, bytes_eq_refl, bytes_eq→eq, arith,
}
use pglite_go.Vfs.Path.{Text}
use pglite_go.Vfs.Memory.{
  Children, Inode, Memory, directory, is_directory, find, enter, alloc, link, new_node, make_dir,
}
use pglite_go.Vfs.Tree.{IsTree, find-erase_ne, at_self, at_other, set_node-field}

-- The types of the nodes and the links to directories are kept.
pub record Kept (m s : Memory) : Type 0 where
  pub more : m.next ≤ s.next
  pub types : (n : ℕ) → n < m.next → (s.at n).type ≡ (m.at n).type
  pub bytes : (n : ℕ) → n < m.next → (s.at n).bytes ≡ (m.at n).bytes
  pub dirs :
      (n : ℕ) (k : Text) (c : ℕ)
      → find k (m.at n).children ≡ some c
      → is_directory (m.at c).type ≡ true
      → find k (s.at n).children ≡ some c

pub Kept-refl : (m : Memory) → Kept m m
Kept-refl m = record {
  more = omega arith;
  types = λ n h. refl;
  bytes = λ n h. refl;
  dirs = λ n k c e d. e;
}

pub Kept-trans : {m s r : Memory} → IsTree m → Kept m s → Kept s r → Kept m r
Kept-trans {m} {s} {r} t g h = record {
  more = omega (arith, g.more, h.more);
  types = λ n below. h.types n (omega (arith, below, g.more)) ∙ g.types n below;
  bytes = λ n below. h.bytes n (omega (arith, below, g.more)) ∙ g.bytes n below;
  dirs = λ n k c e d.
      let (p, q, below) = t.links n k c e in
      h.dirs n k c (g.dirs n k c e d) (ap is_directory (g.types c below) ∙ d);
}

pub find-enter_self : (name : Text) (c : ℕ) (cs : Children) → find name (enter name c cs) ≡ some c
unfolding find enter
find-enter_self name c cs = rw (bytes_eq_refl name) refl

find-enter_ne :
    (k name : Text) (c : ℕ) (cs : Children)
    → bytes_eq name k ≡ false
    → find k (enter name c cs) ≡ find k cs
unfolding find enter
find-enter_ne k name c cs h = rw h (find-erase_ne k name cs h)

-- Entering a name leaves the links to directories, if the name had none.
link-dirs :
    (dir : ℕ) (name : Text) (child : ℕ) (m : Memory) (n : ℕ) (k : Text) (c : ℕ)
    → ((e : ℕ) → find name (m.at dir).children ≡ some e → is_directory (m.at e).type ≡ false)
    → find k (m.at n).children ≡ some c
    → is_directory (m.at c).type ≡ true
    → find k ((link dir name child m).at n).children ≡ some c
link-dirs dir name child m n k c free e d =
    let i : Inode = record (m.at dir) { children = enter name child (m.at dir).children } in
    elim (Bool-cases (n == dir)) [
      | inr other ↦ ap (λ (j : Inode). find k j.children) (at_other dir n i m other) ∙ e
      | inl same ↦
          let here : n ≡ dir = (==_iff n dir).0 same in
          let old : find k (m.at dir).children ≡ some c =
            subst (λ (t : ℕ). find k (m.at t).children ≡ some c) here e in
          let new : find k (enter name child (m.at dir).children) ≡ some c =
            elim (Bool-cases (bytes_eq name k)) [
              | inr other ↦ find-enter_ne k name child (m.at dir).children other ∙ old
              | inl taken ↦
                  let clash =
                    free c
                      (ap (λ t. find t (m.at dir).children) (bytes_eq→eq name k taken) ∙ old) in
                  absurd (cc (sym d ∙ clash))
            ] in
          subst (λ (t : ℕ). find k ((link dir name child m).at t).children ≡ some c) (sym here)
            (ap (λ (j : Inode). find k j.children) (at_self dir i m) ∙ new)
    ]

-- A node with a link is at an address in use.
link-Made :
    (m : Memory) (k : ℕ) (name : Text) (c : ℕ)
    → IsTree m
    → find name (m.at k).children ≡ some c
    → k < m.next
unfolding find
link-Made m k name c t e = elim (Bool-cases (ltb k m.next)) [
  | inl h ↦ ground (arith, h)
  | inr h ↦ absurd (cc (sym (ap (λ cs. find name cs) (t.unmade k (ground (arith, h)))) ∙ e))
]

pub make_dir-Kept :
    (n mode : ℕ) (part : Text) (m : Memory)
    → n < m.next
    → IsTree m
    → ((c : ℕ) → find part (m.at n).children ≡ some c → is_directory (m.at c).type ≡ false)
    → Kept m (make_dir n mode part m).1
make_dir-Kept n mode part m made t free =
    let i : Inode = record (new_node directory mode) { name = part; parent = some n } in
    let s = (alloc i m).1 in
    let old : (k : ℕ) → k < m.next → s.at k ≡ m.at k = λ k h. ground (arith, h) in
    record {
      more = omega arith;
      types = λ k below.
          set_node-field (λ (j : Inode). j.type) n k
            (record (s.at n) { children = enter part m.next (s.at n).children }) s refl
          ∙ ap (λ (j : Inode). j.type) (old k below);
      bytes = λ k below.
          set_node-field (λ (j : Inode). j.bytes) n k
            (record (s.at n) { children = enter part m.next (s.at n).children }) s refl
          ∙ ap (λ (j : Inode). j.bytes) (old k below);
      dirs = λ k name c e d.
          let (p, q, below) = t.links k name c e in
          let k_made = link-Made m k name c t e in
          link-dirs n part m.next s k name c
            (λ c' e'.
              let e_old : find part (m.at n).children ≡ some c' =
                ap (λ (j : Inode). find part j.children) (sym (old n made)) ∙ e' in
              let (p', q', below') = t.links n part c' e_old in
              ap (λ (j : Inode). is_directory j.type) (old c' below') ∙ free c' e_old)
            (ap (λ (j : Inode). find name j.children) (old k k_made) ∙ e)
            (ap (λ (j : Inode). is_directory j.type) (old c below) ∙ d);
    }

pub alloc-Kept : (i : Inode) (m : Memory) → IsTree m → Kept m (alloc i m).1
unfolding find
alloc-Kept i m t =
    let old : (k : ℕ) → k < m.next → (alloc i m).1.at k ≡ m.at k = λ k h. ground (arith, h) in
    record {
      more = omega arith;
      types = λ k below. ap (λ (j : Inode). j.type) (old k below);
      bytes = λ k below. ap (λ (j : Inode). j.bytes) (old k below);
      dirs = λ k name c e d.
          ap (λ (j : Inode). find name j.children) (old k (link-Made m k name c t e)) ∙ e;
    }
