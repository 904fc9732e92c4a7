-- ===== src/Vfs/Tree/Copy.antt =====
-- Copying up, hiding and moving entries, vfs/vfs.go, keep the nodes a tree.
use pglite_go.Base.{
  ℕ, ◌≡◌, ◌≢◌, refl, sym, ◌∙◌, ap, subst, Bool, false, ◌||◌, Bool-cases, Option-cases, inl, inr,
  Option, none, some, List, [], ◌∷◌, arith,
}
use pglite_go.Base.Outcome.{Outcome, ok, err, panic, stuck}
use pglite_go.Base.Action.{continue, ◌>>=◌, ◌>>◌, Holds, Holds-continue, Holds-mono}
use pglite_go.Vfs.Path.{Text, split_name, rel_name}
use pglite_go.Vfs.Memory.{
  Inode, Memory, root, is_directory, is_symlink, is_whiteout, whiteout, find, erase, detach,
  detach_from, new_node, place, place_new, walk, get, live, size,
}
use pglite_go.Vfs.Overlay.{
  Lower, Ref, node_of, in_upper, copy_up, copy_missing, copy_new, place_read, copied,
  read_lower_all, hide_lower, lower_has, remove_child, detach_found,
}
use pglite_go.Vfs.Paths.{move, detached}
use pglite_go.Vfs.Tree.{
  IsTree, IsLoose, detach-IsTree, detach-IsLoose, set_node-IsLoose, find-erase,
}
use pglite_go.Vfs.Tree.Layer.{
  Grows, Grows-refl, Grows-trans, Made, MadeBelow, place-Placed, place_new-Keeps,
}

walk-Made :
    (m : Memory) (n : ℕ) (parts : List Text) (c : ℕ)
    → Made n m
    → IsTree m
    → walk m n parts ≡ some c
    → Made c m
unfolding walk
walk-Made m n [] c made t e = let same : n ≡ c = cc e in omega (arith, same, made)
walk-Made m n (p ∷ ps) c made t e = elim (Bool-cases (is_directory (m.at n).type)) [
  | inr file ↦ absurd (cc (rw file at e))
  | inl dir ↦ elim (Option-cases (find p (m.at n).children)) [
    | inl gone ↦ absurd (cc (rw (dir, gone) at e))
    | inr (k, at) ↦
        let (q, r, below) = t.links n p k at in walk-Made m k ps c below t (rw (dir, at) at e)
  ]
]

walk-parent :
    (m : Memory) (n : ℕ) (parts : List Text) (c : ℕ)
    → IsTree m
    → (m.at n).parent ≢ none
    → walk m n parts ≡ some c
    → (m.at c).parent ≢ none
unfolding walk
walk-parent m n [] c t h e = subst (λ (k : ℕ). (m.at k).parent ≢ none) (cc e) h
walk-parent m n (p ∷ ps) c t h e = elim (Bool-cases (is_directory (m.at n).type)) [
  | inr file ↦ absurd (cc (rw file at e))
  | inl dir ↦ elim (Option-cases (find p (m.at n).children)) [
    | inl gone ↦ absurd (cc (rw (dir, gone) at e))
    | inr (k, at) ↦
        walk-parent m k ps c t (λ top. cc (sym top ∙ (t.links n p k at).0)) (rw (dir, at) at e)
  ]
]

-- A path with a component does not lead to the root.
pub walk-ne-root :
    (m : Memory) (parts : List Text) (c : ℕ)
    → IsTree m
    → parts ≢ []
    → walk m root parts ≡ some c
    → c ≢ root
unfolding walk
walk-ne-root m [] c t some_part e = absurd (some_part refl)
walk-ne-root m (p ∷ ps) c t some_part e = elim (Option-cases (find p (m.at root).children)) [
  | inl gone ↦ absurd (cc (rw (t.root_dir, gone) at e))
  | inr (k, at) ↦ λ top.
      walk-parent m k ps c t (λ none_yet. cc (sym none_yet ∙ (t.links root p k at).0))
        (rw (t.root_dir, at) at e) (ap (λ (j : ℕ). (m.at j).parent) top ∙ t.no_parent)
]

pub live-eq-some : (o : Option ℕ) (m : Memory) {n : ℕ} → live o m ≡ some n → o ≡ some n
live-eq-some none m e = absurd (cc e)
live-eq-some (some k) m e = elim (Bool-cases (is_whiteout (m.at k).type)) [
  | inl white ↦ absurd (cc (rw white at e))
  | inr other ↦ rw other at e
]

pub in_upper-Made :
    (abs : Text) (m : Memory) (n : ℕ) → IsTree m → in_upper abs m ≡ some n → Made n m
unfolding get
in_upper-Made abs m n t e =
    walk-Made m root (split_name (rel_name abs)) n t.root_made t
      (live-eq-some (get (rel_name abs) m) m e)

-- A path that names an entry below the root.
abbrev pub IsBelow : Text → Type 0
IsBelow abs = split_name (rel_name abs) ≢ []

detach_from-Grows :
    (o : Option ℕ) (name : Text) (m : Memory)
    → IsTree (detach_from o name m)
    → Grows none m (detach_from o name m)
detach_from-Grows none name m t = Grows-refl m t
detach_from-Grows (some dir) name m t = record {
  tree = t;
  more = omega arith;
  loose = λ c apart below l.
      set_node-IsLoose dir (record (m.at dir) { children = erase name (m.at dir).children }) m c
        (λ k j e. find-erase k name (m.at dir).children e) l;
}

pub detach-Grows : (n : ℕ) (m : Memory) → IsTree m → Grows none m (detach n m)
detach-Grows n m t = detach_from-Grows (m.at n).parent (m.at n).name m (detach-IsTree n m t)

detach_found-Grows : (o : Option ℕ) (m : Memory) → IsTree m → Grows none m (detach_found o m)
detach_found-Grows none m t = Grows-refl m t
detach_found-Grows (some n) m t = detach-Grows n m t

module _ (lower : Option Lower) where
  copy_new-Keeps :
      (abs : Text) (i : Inode) (empty : Bool) (m : Memory)
      → IsTree m
      → Holds (Grows none m) MadeBelow (copy_new lower abs i empty m)
  copy_new-Keeps abs i empty m t =
      elim (Bool-cases (is_directory i.type || is_symlink i.type || empty)) [
        | inl plain ↦ rw plain (place_new-Keeps (rel_name abs) (copied lower i) m refl t)
        | inr read ↦ rw read (place_read-Keeps (read_lower_all lower abs (size i)))
      ]
    where
      place_read-Keeps :
          (o : Outcome (List ℕ))
          → Holds (Grows none m) MadeBelow (place_read lower abs (size i) (copied lower i) o m)
      place_read-Keeps (ok bs) =
          place_new-Keeps (rel_name abs) (record (copied lower i) { bytes = _ }) m refl t
      place_read-Keeps (err e) = Grows-refl m t
      place_read-Keeps panic = Grows-refl m t
      place_read-Keeps stuck = Grows-refl m t

  copy_missing-Keeps :
      (abs : Text) (r : Ref) (empty : Bool) (o : Option ℕ) (m : Memory)
      → ((n : ℕ) → o ≡ some n → Made n m)
      → IsTree m
      → Holds (Grows none m) Made (copy_missing lower abs r empty o m)
  copy_missing-Keeps abs r empty (some n) m there t = (Grows-refl m t, there n refl)
  copy_missing-Keeps abs r empty none m there t =
      Holds-mono (copy_new lower abs (node_of r m) empty m) (λ s g. g) (λ a s g p. p.0)
        (copy_new-Keeps abs (node_of r m) empty m t)

  pub copy_up-Keeps :
      (abs : Text) (r : Ref) (empty : Bool) (m : Memory)
      → IsTree m
      → Holds (Grows none m) Made (copy_up lower abs r empty m)
  unfolding copy_up
  copy_up-Keeps abs r empty m t =
      copy_missing-Keeps abs r empty (in_upper abs m) m (λ n. in_upper-Made abs m n t) t

  copy_missing-KeepsBelow :
      (abs : Text) (r : Ref) (empty : Bool) (o : Option ℕ) (m : Memory)
      → ((n : ℕ) → o ≡ some n → MadeBelow n m)
      → IsTree m
      → Holds (Grows none m) MadeBelow (copy_missing lower abs r empty o m)
  copy_missing-KeepsBelow abs r empty (some n) m there t = (Grows-refl m t, there n refl)
  copy_missing-KeepsBelow abs r empty none m there t = copy_new-Keeps abs (node_of r m) empty m t

  copy_up-KeepsBelow :
      (abs : Text) (r : Ref) (empty : Bool) (m : Memory)
      → IsBelow abs
      → IsTree m
      → Holds (Grows none m) MadeBelow (copy_up lower abs r empty m)
  unfolding copy_up get
  copy_up-KeepsBelow abs r empty m below t =
      copy_missing-KeepsBelow abs r empty (in_upper abs m) m
        (λ n e. (
          in_upper-Made abs m n t e,
          walk-ne-root m (split_name (rel_name abs)) n t below
              (live-eq-some (get (rel_name abs) m) m e),
        ))
        t

  pub hide_lower-Grows :
      (abs : Text) (m : Memory)
      → IsTree m
      → Holds (Grows none m) (λ a s. Unit {0}) (hide_lower lower abs m)
  unfolding hide_lower
  hide_lower-Grows abs m t = elim (Bool-cases (lower_has lower abs)) [
    | inr bare ↦ rw bare (Grows-refl m t, tt)
    | inl hidden ↦
        let all : Holds (Grows none m) (λ (a : Unit {0}) s. Unit {0})
            (continue (place_new (rel_name abs) (new_node whiteout 0) m) (λ n m'. (ok tt, m'))) =
          Holds-continue (λ a s. Unit {0}) (place_new (rel_name abs) (new_node whiteout 0) m)
            (λ n m'. (ok tt, m')) (λ s g. g) (λ a s g p. (g, tt))
            (place_new-Keeps (rel_name abs) (new_node whiteout 0) m refl t) in
        rw hidden all
  ]

  pub remove_child-Grows :
      (abs : Text) (m : Memory)
      → IsTree m
      → Holds (Grows none m) (λ a s. Unit {0}) (remove_child lower abs m)
  unfolding remove_child
  remove_child-Grows abs m t =
      let g = detach_found-Grows (in_upper abs m) m t in
      Holds-mono (hide_lower lower abs (detach_found (in_upper abs m) m))
        (λ s h. Grows-trans none g h) (λ a s h p. p)
        (hide_lower-Grows abs (detach_found (in_upper abs m) m) g.tree)

  -- From the node that is moved on, once its directory has lost it.
  place_moved :
      (old_abs new_abs : Text) (n : ℕ) (m : Memory)
      → n ≢ root
      → Made n m
      → IsLoose m n
      → IsTree m
      → Holds IsTree
          (λ a s. Unit {0})
          ((hide_lower lower old_abs >> (place (rel_name new_abs) n >>= λ k s. (ok tt, s))) m)
  place_moved old_abs new_abs n m not_root made loose t =
      Holds-continue (λ a s. Unit {0}) (hide_lower lower old_abs m)
        (λ u. place (rel_name new_abs) n >>= λ k s. (ok tt, s)) (λ s g. g.tree)
        (λ u s g p.
          Holds-continue (λ a r. Unit {0}) (place (rel_name new_abs) n s) (λ k r. (ok tt, r))
            (λ r h. h.tree) (λ k r h e. (h.tree, tt))
            (place-Placed (rel_name new_abs) n s not_root (omega (arith, made, g.more))
              (g.loose n (λ e. cc e) made loose) g.tree))
        (hide_lower-Grows old_abs m t)

  pub move-IsTree :
      (old_abs new_abs : Text) (r : Ref) (m : Memory)
      → IsBelow old_abs
      → IsTree m
      → Holds IsTree (λ a s. Unit {0}) (move lower old_abs new_abs r m)
  unfolding move
  move-IsTree old_abs new_abs r m below t =
      Holds-continue (λ a s. Unit {0}) (copy_up lower old_abs r false m)
        (λ n.
          detached lower n
          >> (hide_lower lower old_abs >> (place (rel_name new_abs) n >>= λ k s. (ok tt, s))))
        (λ s g. g.tree)
        (λ n s g (made, not_root).
          let d = detach-Grows n s g.tree in
          place_moved old_abs new_abs n (detach n s) not_root (omega (arith, made, d.more))
            (detach-IsLoose n s g.tree) d.tree)
        (copy_up-KeepsBelow old_abs r false m below t)
