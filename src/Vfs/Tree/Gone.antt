-- ===== src/Vfs/Tree/Gone.antt =====
-- A node that vfs/vfs.go detaches is no longer at its path.
use pglite_go.Base.{
  ℕ, ◌≡◌, ◌≢◌, refl, sym, ◌∙◌, ap, true, Bool-cases, Option-cases, inl, inr, Option, none, some,
  List, [], ◌∷◌,
}
use pglite_go.Vfs.Path.{Text, split_name, rel_name}
use pglite_go.Vfs.Memory.{
  Inode, Memory, root, is_directory, find, erase, detach, detach_from, walk, get,
}
use pglite_go.Vfs.Overlay.{in_upper}
use pglite_go.Vfs.Tree.{
  IsTree, IsLoose, FewerLinks, detach-IsLoose, set_node-field, set_node-FewerLinks, find-erase,
}
use pglite_go.Vfs.Tree.Copy.{IsBelow, live-eq-some, walk-ne-root}

-- Detaching leaves every field but the links.
pub detach-field :
    {A : Type 0} (f : Inode → A) (n k : ℕ) (m : Memory)
    → ((i : Inode) (cs : _) → f (record i { children = cs }) ≡ f i)
    → f ((detach n m).at k) ≡ f (m.at k)
detach-field f n k m kept = from (m.at n).parent
  where
    from : (o : Option ℕ) → f ((detach_from o (m.at n).name m).at k) ≡ f (m.at k)
    from none = refl
    from (some d) =
        set_node-field f d k (record (m.at d) { children = erase (m.at n).name (m.at d).children })
          m (kept (m.at d) _)

detach-FewerLinks :
    (n k : ℕ) (m : Memory) → FewerLinks ((detach n m).at k).children (m.at k).children
detach-FewerLinks n k m = from (m.at n).parent
  where
    from :
        (o : Option ℕ)
        → FewerLinks ((detach_from o (m.at n).name m).at k).children (m.at k).children
    from none = λ t c e. e
    from (some d) =
        set_node-FewerLinks d k
          (record (m.at d) { children = erase (m.at n).name (m.at d).children }) m
          (λ t c e. find-erase t (m.at n).name (m.at d).children e)

-- One step down that both stores have.
walk_step :
    (m s : Memory) (n : ℕ) (p : Text) (ps : List Text) (k c : ℕ)
    → is_directory (s.at n).type ≡ true
    → is_directory (s.at n).type ≡ is_directory (m.at n).type
    → FewerLinks (s.at n).children (m.at n).children
    → find p (s.at n).children ≡ some k
    → walk m n (p ∷ ps) ≡ some c
    → walk m k ps ≡ some c
unfolding walk
walk_step m s n p ps k c dir same fewer at e =
    let dir' : is_directory (m.at n).type ≡ true = sym same ∙ dir in rw (dir', fewer p k at) at e

-- A way to a node that has lost its link ends on the way.
walk_gone :
    (m s : Memory) (n : ℕ) (parts : List Text) (c : ℕ)
    → ((k : ℕ) → is_directory (s.at k).type ≡ is_directory (m.at k).type)
    → ((k : ℕ) → FewerLinks (s.at k).children (m.at k).children)
    → IsLoose s c
    → n ≢ c
    → walk m n parts ≡ some c
    → walk s n parts ≡ none
unfolding walk
walk_gone m s n [] c types fewer loose apart e = absurd (apart (cc e))
walk_gone m s n (p ∷ ps) c types fewer loose apart e =
    elim (Bool-cases (is_directory (s.at n).type)) [
      | inr file ↦ rw file refl
      | inl dir ↦ elim (Option-cases (find p (s.at n).children)) [
        | inl gone ↦ rw (dir, gone) refl
        | inr (k, at) ↦
            let rest =
              walk_gone m s k ps c types fewer loose (λ same. loose n p (at ∙ ap some same))
                (walk_step m s n p ps k c dir (types n) (fewer n) at e) in
            rw (dir, at) rest
      ]
    ]

pub in_upper-detach :
    (abs : Text) (n : ℕ) (m : Memory)
    → IsBelow abs
    → IsTree m
    → in_upper abs m ≡ some n
    → get (rel_name abs) (detach n m) ≡ none
unfolding get
in_upper-detach abs n m below t e =
    let way = live-eq-some (get (rel_name abs) m) m e in
    walk_gone m (detach n m) root (split_name (rel_name abs)) n
      (λ k. ap is_directory (detach-field (λ (i : Inode). i.type) n k m (λ i cs. refl)))
      (λ k. detach-FewerLinks n k m) (detach-IsLoose n m t)
      (λ top. walk-ne-root m (split_name (rel_name abs)) n t below way (sym top)) way
