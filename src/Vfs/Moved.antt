-- ===== src/Vfs/Moved.antt =====
-- Rename of vfs/vfs.go on an entry of the upper layer.
use pglite_go.Base.{
  ℕ, ◌<◌, ◌≡◌, refl, ◌∙◌, ap, subst, false, Bool-cases, inl, inr, Option, none, some, List, [], ◌∷◌,
  arith,
}
use pglite_go.Base.Outcome.{ok}
use pglite_go.Base.Action.{continue, ◌>>=◌, ◌>>◌, Ends, Ends-continue, Ends-and, Ends-of}
use pglite_go.Vfs.Path.{Text, split_name, join_slash, rel_name}
use pglite_go.Vfs.Memory.{
  Inode, Memory, is_whiteout, whiteout, new_node, detach, attach, mkdir_all, place, place_parts,
  place_new, parts_front, parts_last, get, live,
}
use pglite_go.Vfs.Overlay.{
  Lower, Ref, upper, in_upper, look, copy_up, hide_lower, lower_has, stat_node,
}
use pglite_go.Vfs.System.{Fs}
use pglite_go.Vfs.Paths.{at_cwd, move, rename}
use pglite_go.Vfs.Tree.{IsTree, IsLoose, detach-IsLoose}
use pglite_go.Vfs.Tree.Layer.{mkdir_all-Keeps}
use pglite_go.Vfs.Tree.Copy.{in_upper-Made, detach-Grows, hide_lower-Grows}
use pglite_go.Vfs.Tree.Found.{SameData, place-Entered, place_new-SameData}
use pglite_go.Vfs.Tree.Gone.{detach-field}
use pglite_go.Vfs.Tree.Reach.{Reached, reached-IsTree}
use pglite_go.Vfs.Visible.{back-Ends, stat_node-upper}

-- A `place` that fails leaves a loose node loose.
place_parts-lost :
    (parts : List Text) (n : ℕ) (m : Memory)
    → n < m.next
    → IsLoose m n
    → IsTree m
    → Ends (λ s. IsLoose s n) (λ k s. Unit {0}) (place_parts parts n m)
place_parts-lost [] n m below loose t = loose
place_parts-lost (p ∷ ps) n m below loose t =
    Ends-continue (λ k s. Unit {0}) (mkdir_all (join_slash (parts_front p ps)) 0o755 m)
      (λ dir s. (ok n, attach dir (parts_last p ps) n s)) (λ s l. l) (λ dir s u. tt)
      (Ends-of _ (mkdir_all (join_slash (parts_front p ps)) 0o755 m)
        (λ s g. g.loose n (λ e. cc e) below loose)
        (mkdir_all-Keeps (join_slash (parts_front p ps)) 0o755 m t))

place-lost :
    (name : Text) (n : ℕ) (m : Memory)
    → n < m.next
    → IsLoose m n
    → IsTree m
    → Ends (λ s. IsLoose s n) (λ k s. Unit {0}) (place name n m)
unfolding place
place-lost name n m = place_parts-lost (split_name name) n m

-- The node is at the path, with its bytes.
abbrev At : Option Lower → Text → ℕ → Memory → Memory → Type 0
At lower abs n m s = (stat_node lower abs s ≡ some (upper n)) × ((s.at n).bytes ≡ (m.at n).bytes)

-- A loose node at an address in use.
abbrev Ready : ℕ → Memory → Type 0
Ready n s = IsLoose s n × IsTree s × (n < s.next)

module _ (lower : Option Lower) where
  hide_lower-SameData :
      (abs : Text) (m : Memory)
      → IsTree m
      → Ends (SameData m) (λ u s. SameData m s) (hide_lower lower abs m)
  unfolding hide_lower
  hide_lower-SameData abs m t = elim (Bool-cases (lower_has lower abs)) [
    | inr bare ↦ rw bare (λ n below. (refl, refl))
    | inl held ↦
        let i = new_node whiteout 0 in
        let all : Ends (SameData m) (λ u s. SameData m s)
            (continue (place_new (rel_name abs) i m) (λ n m'. (ok tt, m'))) =
          Ends-continue (λ u s. SameData m s) (place_new (rel_name abs) i m) (λ n m'. (ok tt, m'))
            (λ s h. h) (λ n s h. h) (place_new-SameData (rel_name abs) i m refl t) in
        rw held all
  ]

  place_at :
      (abs : Text) (n : ℕ) (m s : Memory)
      → Ready n s
      → (s.at n).bytes ≡ (m.at n).bytes
      → is_whiteout (s.at n).type ≡ false
      → Ends
          (λ r. IsLoose r n)
          (λ u r. At lower abs n m r)
          ((place (rel_name abs) n >>= λ k r. (ok tt, r)) s)
  unfolding get
  place_at abs n m s (loose, t, below) bytes shown =
      Ends-continue (λ u r. At lower abs n m r) (place (rel_name abs) n s) (λ k r. (ok tt, r))
        (λ r l. l)
        (λ k r (u, (here, w, b, y)).
          (stat_node-upper lower abs r n w (ap is_whiteout y ∙ shown), b ∙ bytes))
        (Ends-and _ _ _ _ (place (rel_name abs) n s) (place-lost (rel_name abs) n s below loose t)
          (place-Entered (rel_name abs) n s below t))

  -- From the detached node on.
  moved_at :
      (old_abs new_abs : Text) (n : ℕ) (m s : Memory)
      → Ready n s
      → (s.at n).bytes ≡ (m.at n).bytes
      → is_whiteout (s.at n).type ≡ false
      → Ends
          (λ r. IsLoose r n)
          (λ u r. At lower new_abs n m r)
          ((hide_lower lower old_abs >> (place (rel_name new_abs) n >>= λ k r. (ok tt, r))) s)
  moved_at old_abs new_abs n m s (loose, t, below) bytes shown =
      Ends-continue (λ u r. At lower new_abs n m r) (hide_lower lower old_abs s)
        (λ u. place (rel_name new_abs) n >>= λ k r. (ok tt, r)) (λ r q. q.0)
        (λ u r ((ready, x), same).
          let (b, y) = same n below in
          place_at new_abs n m r ready (b ∙ bytes) (ap is_whiteout y ∙ shown))
        (Ends-and _ _ _ _ (hide_lower lower old_abs s)
          (Ends-of _ (hide_lower lower old_abs s)
            (λ r g. (g.loose n (λ e. cc e) below loose, g.tree, omega (arith, below, g.more)))
            (hide_lower-Grows lower old_abs s t))
          (hide_lower-SameData old_abs s t))

  live_shown :
      (o : Option ℕ) (m : Memory) (n : ℕ) → live o m ≡ some n → is_whiteout (m.at n).type ≡ false
  live_shown none m n e = absurd (cc e)
  live_shown (some k) m n e = elim (Bool-cases (is_whiteout (m.at k).type)) [
    | inl white ↦ absurd (cc (rw white at e))
    | inr other ↦
        let same : k ≡ n = cc (rw other at e) in
        subst (λ (j : ℕ). is_whiteout (m.at j).type ≡ false) same other
  ]

  move-At :
      (old_abs new_abs : Text) (r : Ref) (n : ℕ) (m : Memory)
      → IsTree m
      → in_upper old_abs m ≡ some n
      → Ends (λ s. IsLoose s n) (λ u s. At lower new_abs n m s) (move lower old_abs new_abs r m)
  unfolding move copy_up get
  move-At old_abs new_abs r n m t here =
      let s = detach n m in
      let bytes = detach-field (λ (i : Inode). i.bytes) n n m (λ i cs. refl) in
      let type = detach-field (λ (i : Inode). i.type) n n m (λ i cs. refl) in
      let g = detach-Grows n m t in
      let shown = live_shown (get (rel_name old_abs) m) m n here in
      rw here (
        moved_at old_abs new_abs n m s
          (detach-IsLoose n m t, g.tree, omega (arith, in_upper-Made old_abs m n t here, g.more))
          bytes (ap is_whiteout type ∙ shown))

  -- In a reachable state, Rename of a path that is found and has a node in the upper layer either
  -- succeeds, and the new path then shows this node with its bytes, or fails, and then no
  -- directory has the node any more, neither under the old name nor under another.
  pub rename-moves :
      (old new : Text) (v : Fs) (r : Ref) (t : Text) (n : ℕ)
      → Reached lower v
      → look lower v.mem false (at_cwd v old) ≡ some (r, t)
      → in_upper (at_cwd v old) v.mem ≡ some n
      → Ends
          (λ w. IsLoose w.mem n)
          (λ u w.
            (stat_node lower (at_cwd v new) w.mem ≡ some (upper n))
            × ((w.mem.at n).bytes ≡ (v.mem.at n).bytes))
          (rename lower old new v)
  unfolding rename
  rename-moves old new v r t n reached found here = rw found (
      back-Ends (move lower (at_cwd v old) (at_cwd v new) r v.mem) v (λ s. IsLoose s n)
        (λ u s. At lower (at_cwd v new) n v.mem s)
        (move-At (at_cwd v old) (at_cwd v new) r n v.mem (reached-IsTree lower reached) here))
