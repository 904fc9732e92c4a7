-- ===== src/Vfs/Tree/Calls.antt =====
-- Every call of vfs/vfs.go keeps the nodes of the upper layer a tree.
use pglite_go.Base.{ℕ, ◌≡◌, refl, true, false, Bool-cases, inl, inr, Option, none, some, List, []}
use pglite_go.Base.Outcome.{Outcome, ok, err, panic, stuck}
use pglite_go.Base.Action.{Act, Holds, Holds-continue, Holds-mono}
use pglite_go.Vfs.Path.{Text, rel_name}
use pglite_go.Vfs.Memory.{Inode, Memory, is_directory, new_link, mkdir_all, place_new}
use pglite_go.Vfs.Overlay.{Lower, Ref, node_of, look, remove_child, readdir_names}
use pglite_go.Vfs.System.{Fs, back, on_mem, done_with}
use pglite_go.Vfs.Paths.{
  at_cwd, mkdir_all_at, write_file, file_node, symlink_at, found_or, chdir, stat, lstat_at, access,
  unlink_at, rmdir, no_names, rename, move,
}
use pglite_go.Vfs.Tree.{IsTree}
use pglite_go.Vfs.Tree.Layer.{Grows, Made, MadeBelow, mkdir_all-Keeps, place_new-Keeps}
use pglite_go.Vfs.Tree.Copy.{IsBelow, remove_child-Grows, move-IsTree}

-- The state of the file system at any end of a call.
abbrev pub KeepsTree : {A : Type 0} → Outcome A × Fs → Type 0
KeepsTree {A} r = Holds (λ v. IsTree v.mem) (λ a v. Unit {0}) r

pub on_mem-KeepsTree :
    {A : Type 0} (r : Outcome A × Memory) (v : Fs) (P : A → Memory → Type 0)
    → Holds IsTree P r
    → Holds (λ w. IsTree w.mem) (λ a w. P a w.mem) (back r v)
on_mem-KeepsTree (ok a, m) v P h = h
on_mem-KeepsTree (err e, m) v P h = h
on_mem-KeepsTree (panic, m) v P h = h
on_mem-KeepsTree (stuck, m) v P h = h

-- A call of the upper layer whose result is dropped.
done_with-KeepsTree :
    {A : Type 0} (a : Act Memory A) (v : Fs) (P : A → Memory → Type 0)
    → Holds IsTree P (a v.mem)
    → KeepsTree (done_with a v)
done_with-KeepsTree a v P h =
    Holds-continue (λ u w. Unit {0}) (back (a v.mem) v) (λ r w. (ok tt, w)) (λ w t. t)
      (λ r w t p. (t, tt)) (on_mem-KeepsTree (a v.mem) v P h)

-- What `Grows` says of the tree.
pub Grows-IsTree :
    {A : Type 0} (x : Option ℕ) (m : Memory) (P : A → Memory → Type 0) (r : Outcome A × Memory)
    → Holds (Grows x m) P r
    → Holds IsTree P r
Grows-IsTree x m P r h = Holds-mono r (λ s g. g.tree) (λ a s g p. p) h

pub mkdir_all_at-KeepsTree :
    (p : Text) (mode : ℕ) (v : Fs) → IsTree v.mem → KeepsTree (mkdir_all_at p mode v)
unfolding mkdir_all_at
mkdir_all_at-KeepsTree p mode v t =
    done_with-KeepsTree (mkdir_all (rel_name (at_cwd v p)) mode) v Made (
      Grows-IsTree none v.mem Made (mkdir_all (rel_name (at_cwd v p)) mode v.mem)
        (mkdir_all-Keeps (rel_name (at_cwd v p)) mode v.mem t))

place_at-KeepsTree :
    (name : Text) (i : Inode) (v : Fs)
    → i.children ≡ []
    → IsTree v.mem
    → KeepsTree (done_with (place_new name i) v)
place_at-KeepsTree name i v empty t = done_with-KeepsTree (place_new name i) v MadeBelow (
    Grows-IsTree none v.mem MadeBelow (place_new name i v.mem)
      (place_new-Keeps name i v.mem empty t))

pub write_file-KeepsTree :
    (p : Text) (bytes : List ℕ) (mode : ℕ) (v : Fs)
    → IsTree v.mem
    → KeepsTree (write_file p bytes mode v)
unfolding write_file
write_file-KeepsTree p bytes mode v t =
    place_at-KeepsTree (rel_name (at_cwd v p)) (file_node bytes mode) v refl t

pub symlink_at-KeepsTree :
    (target p : Text) (v : Fs) → IsTree v.mem → KeepsTree (symlink_at target p v)
unfolding symlink_at
symlink_at-KeepsTree target p v t =
    place_at-KeepsTree (rel_name (at_cwd v p)) (new_link target) v refl t

found_or-KeepsTree :
    {A : Type 0} (o : Option (Ref × Text)) (f : Ref → Text → Act Fs A) (v : Fs)
    → IsTree v.mem
    → ((r : Ref) (abs : Text) → o ≡ some (r, abs) → KeepsTree (f r abs v))
    → KeepsTree (found_or o f v)
found_or-KeepsTree none f v t h = t
found_or-KeepsTree (some (r, abs)) f v t h = h r abs refl

module _ (lower : Option Lower) where
  pub chdir-KeepsTree : (p : Text) (v : Fs) → IsTree v.mem → KeepsTree (chdir lower p v)
  unfolding chdir
  chdir-KeepsTree p v t = found_or-KeepsTree (look lower v.mem true (at_cwd v p)) _ v t (λ r abs e.
      elim (Bool-cases (is_directory (node_of r v.mem).type)) [
        | inl d ↦ rw d (t, tt)
        | inr f ↦ rw f t
      ])

  pub stat-KeepsTree : (p : Text) (v : Fs) → IsTree v.mem → KeepsTree (stat lower p v)
  unfolding stat
  stat-KeepsTree p v t =
      found_or-KeepsTree (look lower v.mem true (at_cwd v p)) _ v t (λ r abs e. (t, tt))

  pub lstat_at-KeepsTree : (p : Text) (v : Fs) → IsTree v.mem → KeepsTree (lstat_at lower p v)
  unfolding lstat_at
  lstat_at-KeepsTree p v t =
      found_or-KeepsTree (look lower v.mem false (at_cwd v p)) _ v t (λ r abs e. (t, tt))

  pub access-KeepsTree : (p : Text) (v : Fs) → IsTree v.mem → KeepsTree (access lower p v)
  unfolding access
  access-KeepsTree p v t =
      found_or-KeepsTree (look lower v.mem true (at_cwd v p)) _ v t (λ r abs e. (t, tt))

  removed-KeepsTree :
      (abs : Text) (v : Fs) → IsTree v.mem → KeepsTree (on_mem (remove_child lower abs) v)
  removed-KeepsTree abs v t =
      on_mem-KeepsTree (remove_child lower abs v.mem) v (λ a s. Unit {0})
        (Grows-IsTree none v.mem (λ a s. Unit {0}) (remove_child lower abs v.mem)
          (remove_child-Grows lower abs v.mem t))

  pub unlink_at-KeepsTree : (p : Text) (v : Fs) → IsTree v.mem → KeepsTree (unlink_at lower p v)
  unfolding unlink_at
  unlink_at-KeepsTree p v t =
      found_or-KeepsTree (look lower v.mem false (at_cwd v p)) _ v t (λ r abs e.
        elim (Bool-cases (is_directory (node_of r v.mem).type)) [
          | inl d ↦ rw d t
          | inr f ↦ rw f (removed-KeepsTree (at_cwd v p) v t)
        ])

  pub rmdir-KeepsTree : (p : Text) (v : Fs) → IsTree v.mem → KeepsTree (rmdir lower p v)
  unfolding rmdir
  rmdir-KeepsTree p v t = found_or-KeepsTree (look lower v.mem false (at_cwd v p)) _ v t (λ r abs e.
      elim (Bool-cases (is_directory (node_of r v.mem).type)) [
        | inr f ↦ rw f t
        | inl d ↦ elim (Bool-cases (no_names lower (readdir_names lower (at_cwd v p) v.mem))) [
          | inl empty ↦ rw (d, empty) (removed-KeepsTree (at_cwd v p) v t)
          | inr full ↦ rw (d, full) t
        ]
      ])

  pub rename-KeepsTree :
      (old new : Text) (v : Fs)
      → IsBelow (at_cwd v old)
      → IsTree v.mem
      → KeepsTree (rename lower old new v)
  unfolding rename
  rename-KeepsTree old new v below t =
      found_or-KeepsTree (look lower v.mem false (at_cwd v old)) _ v t (λ r abs e.
        on_mem-KeepsTree (move lower (at_cwd v old) (at_cwd v new) r v.mem) v (λ a s. Unit {0})
          (move-IsTree lower (at_cwd v old) (at_cwd v new) r v.mem below t))
