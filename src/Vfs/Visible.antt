-- ===== src/Vfs/Visible.antt =====
-- What statNode and memFS.get of vfs/vfs.go and vfs/memfs.go see behind WriteFile, MkdirAll and
-- Unlink.
use pglite_go.Base.{
  ℕ, ◌≡◌, refl, ap, true, false, Bool-cases, Option-cases, inl, inr, Option, none, some, List, [],
  if◌then◌else◌,
}
use pglite_go.Base.Outcome.{Outcome, ok, err, panic, stuck, is_directory as is_a_directory}
use pglite_go.Base.Action.{Act, continue, Ends, Ends-continue, Ends-mono}
use pglite_go.Vfs.Path.{Text, rel_name}
use pglite_go.Vfs.Memory.{
  Memory, is_directory, is_whiteout, whiteout, new_node, detach, get, mkdir_all, place_new,
}
use pglite_go.Vfs.Overlay.{
  Lower, Ref, upper, node_of, in_upper, upper_whiteout, lower_info, lower_has, stat_node, look,
  hide_lower, remove_child,
}
use pglite_go.Vfs.System.{Fs, back, on_mem, done_with}
use pglite_go.Vfs.Paths.{at_cwd, mkdir_all_at, write_file, file_node, unlink_at, found_or}
use pglite_go.Vfs.Tree.{IsTree, detach-IsTree}
use pglite_go.Vfs.Tree.Copy.{IsBelow}
use pglite_go.Vfs.Tree.Kept.{Kept}
use pglite_go.Vfs.Tree.Reaches.{mkdir_all-Reaches}
use pglite_go.Vfs.Tree.Found.{FoundNew, place_new-FoundNew}
use pglite_go.Vfs.Tree.Gone.{in_upper-detach}
use pglite_go.Vfs.Tree.Reach.{Reached, reached-IsTree}

pub back-Ends :
    {A : Type 0} (r : Outcome A × Memory) (v : Fs) (I : Memory → Type 0) (P : A → Memory → Type 0)
    → Ends I P r
    → Ends (λ w. I w.mem) (λ a w. P a w.mem) (back r v)
back-Ends (ok a, m) v I P h = h
back-Ends (err e, m) v I P h = h
back-Ends (panic, m) v I P h = h
back-Ends (stuck, m) v I P h = h

done_with-Ends :
    {A : Type 0} (a : Act Memory A) (v : Fs) (I : Memory → Type 0) (P : A → Memory → Type 0)
    → Ends I P (a v.mem)
    → Ends (λ w. I w.mem) (λ u w. (x : A) × P x w.mem) (done_with a v)
done_with-Ends a v I P h =
    Ends-continue (λ u w. (x : _) × P x w.mem) (back (a v.mem) v) (λ r w. (ok tt, w)) (λ w i. i)
      (λ r w p. (r, p)) (back-Ends (a v.mem) v I P h)

-- A lookup takes a node of the upper layer before the lower one.
pub stat_node-upper :
    (lower : Option Lower) (abs : Text) (m : Memory) (n : ℕ)
    → get (rel_name abs) m ≡ some n
    → is_whiteout (m.at n).type ≡ false
    → stat_node lower abs m ≡ some (upper n)
unfolding stat_node
stat_node-upper lower abs m n e shown = rw (e, shown) refl

stat_node-whiteout :
    (lower : Option Lower) (abs : Text) (m : Memory) (n : ℕ)
    → get (rel_name abs) m ≡ some n
    → is_whiteout (m.at n).type ≡ true
    → stat_node lower abs m ≡ none
unfolding stat_node upper_whiteout
stat_node-whiteout lower abs m n e white =
    let unseen : in_upper abs m ≡ none = rw (e, white) refl in
    let hidden : upper_whiteout abs m ≡ true = rw (e, white) refl in rw (unseen, hidden) refl

stat_node-missing :
    (lower : Option Lower) (abs : Text) (m : Memory)
    → get (rel_name abs) m ≡ none
    → lower_info lower abs ≡ none
    → stat_node lower abs m ≡ none
unfolding stat_node upper_whiteout
stat_node-missing lower abs m e bare =
    let unseen : in_upper abs m ≡ none = rw e refl in
    let open_to : upper_whiteout abs m ≡ false = rw e refl in rw (unseen, open_to, bare) refl

-- In a reachable state, where WriteFile succeeds, its path shows a node of the upper layer with
-- the written bytes, whatever either layer had there; where it fails, all nodes keep their types
-- and bytes, and the links to directories are still there.
pub write_file-stat_node :
    (lower : Option Lower) (p : Text) (bytes : List ℕ) (mode : ℕ) (v : Fs)
    → Reached lower v
    → Ends
        (λ w. Kept v.mem w.mem)
        (λ u w.
          (n : ℕ) × (stat_node lower (at_cwd v p) w.mem ≡ some (upper n))
          × ((w.mem.at n).bytes ≡ some (record { content = bytes; spare = [] })))
        (write_file p bytes mode v)
unfolding write_file
write_file-stat_node lower p bytes mode v r =
    let name = rel_name (at_cwd v p) in
    let i = file_node bytes mode in
    Ends-mono (done_with (place_new name i) v) (λ w k. k)
      (λ u w (n, (e, b, y)).
        (n, stat_node-upper lower (at_cwd v p) w.mem n e (ap is_whiteout y), b))
      (done_with-Ends (place_new name i) v (Kept v.mem) (λ n m. FoundNew name i n m)
        (place_new-FoundNew name i v.mem refl (reached-IsTree lower r)))

-- In a reachable state, where MkdirAll succeeds, memFS.get finds a directory at the path; whether
-- it succeeds or not, all nodes keep their types and bytes, and the links to directories are still
-- there.
pub mkdir_all_at-get :
    (lower : Option Lower) (p : Text) (mode : ℕ) (v : Fs)
    → Reached lower v
    → Ends
        (λ w. Kept v.mem w.mem)
        (λ u w.
          Kept v.mem w.mem
          × ((d : ℕ) × (get (rel_name (at_cwd v p)) w.mem ≡ some d)
              × (is_directory (w.mem.at d).type ≡ true)))
        (mkdir_all_at p mode v)
unfolding mkdir_all_at get
mkdir_all_at-get lower p mode v r =
    let name = rel_name (at_cwd v p) in
    Ends-mono (done_with (mkdir_all name mode) v) (λ w k. k)
      (λ u w (d, (k, e, dir)). (k, (d, e, dir)))
      (done_with-Ends (mkdir_all name mode) v (Kept v.mem) _
        (mkdir_all-Reaches name mode v.mem (reached-IsTree lower r)))

module _ (lower : Option Lower) where
  hide_lower-hides :
      (abs : Text) (m : Memory)
      → IsTree m
      → (lower_has lower abs ≡ false → stat_node lower abs m ≡ none)
      → Ends (λ s. Unit {0}) (λ u s. stat_node lower abs s ≡ none) (hide_lower lower abs m)
  unfolding hide_lower
  hide_lower-hides abs m t bare = elim (Bool-cases (lower_has lower abs)) [
    | inr bare_below ↦ rw bare_below (bare bare_below)
    | inl held ↦
        let i = new_node whiteout 0 in
        let all : Ends (λ s. Unit {0}) (λ u s. stat_node lower abs s ≡ none)
            (continue (place_new (rel_name abs) i m) (λ n m'. (ok tt, m'))) =
          Ends-continue (λ u s. stat_node lower abs s ≡ none) (place_new (rel_name abs) i m)
            (λ n m'. (ok tt, m')) (λ s k. tt)
            (λ n s (e, b, y). stat_node-whiteout lower abs s n e (ap is_whiteout y))
            (place_new-FoundNew (rel_name abs) i m refl t) in
        rw held all
  ]

  -- A path that no upper node shows: nothing is at it, or a whiteout.
  stat_node-unseen :
      (abs : Text) (m : Memory)
      → in_upper abs m ≡ none
      → lower_info lower abs ≡ none
      → stat_node lower abs m ≡ none
  stat_node-unseen abs m e bare = elim (Option-cases (get (rel_name abs) m)) [
    | inl gone ↦ stat_node-missing lower abs m gone bare
    | inr (n, at) ↦ elim (Bool-cases (is_whiteout (m.at n).type)) [
      | inl white ↦ stat_node-whiteout lower abs m n at white
      | inr shown ↦ absurd (cc (rw (at, shown) at e))
    ]
  ]

  remove_child-hides :
      (abs : Text) (m : Memory)
      → IsBelow abs
      → IsTree m
      → (lower_has lower abs ≡ false → lower_info lower abs ≡ none)
      → Ends (λ s. Unit {0}) (λ u s. stat_node lower abs s ≡ none) (remove_child lower abs m)
  unfolding remove_child
  remove_child-hides abs m below t resolved = elim (Option-cases (in_upper abs m)) [
    | inl none_yet ↦
        rw none_yet
          (hide_lower-hides abs m t (λ unheld. stat_node-unseen abs m none_yet (resolved unheld)))
    | inr (n, at) ↦ rw at (
        hide_lower-hides abs (detach n m) (detach-IsTree n m t) (λ unheld.
          stat_node-missing lower abs (detach n m) (in_upper-detach abs n m below t at)
            (resolved unheld)))
  ]

  -- In a reachable state, where Unlink of a path below the root succeeds, statNode of the path
  -- itself, which follows no links on the way, finds nothing any more, if a path that fs.Stat does
  -- not find in the lower layer is not found by fs.Lstat either.
  pub unlink_at-hides :
      (p : Text) (v : Fs)
      → Reached lower v
      → IsBelow (at_cwd v p)
      → (lower_has lower (at_cwd v p) ≡ false → lower_info lower (at_cwd v p) ≡ none)
      → Ends
          (λ w. Unit {0})
          (λ u w. stat_node lower (at_cwd v p) w.mem ≡ none)
          (unlink_at lower p v)
  unfolding unlink_at
  unlink_at-hides p v r below resolved = removed (look lower v.mem false (at_cwd v p))
    where
      removed :
          (o : Option (Ref × Text))
          → Ends
              (λ w. Unit {0})
              (λ u w. stat_node lower (at_cwd v p) w.mem ≡ none)
              (found_or o
                (λ q resolved w.
                  if is_directory (node_of q w.mem).type
                  then (err is_a_directory, w)
                  else on_mem (remove_child lower (at_cwd v p)) w)
                v)
      removed none = tt
      removed (some (q, t)) = elim (Bool-cases (is_directory (node_of q v.mem).type)) [
        | inl dir ↦ rw dir tt
        | inr file ↦ rw file (
            back-Ends (remove_child lower (at_cwd v p) v.mem) v (λ s. Unit {0})
              (λ u s. stat_node lower (at_cwd v p) s ≡ none)
              (remove_child-hides (at_cwd v p) v.mem below (reached-IsTree lower r) resolved))
      ]
