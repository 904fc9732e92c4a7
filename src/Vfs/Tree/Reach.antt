-- ===== src/Vfs/Tree/Reach.antt =====
-- The states that the calls of vfs/vfs.go lead to from New.
use pglite_go.Base.{ℕ, ◌≡◌, refl, sym, ◌∙◌, ap, Option, some, List, []}
use pglite_go.Base.Action.{Holds-state}
use pglite_go.Wire.Bytes.{ℤ}
use pglite_go.Vfs.Path.{Text, split_name, reverse_onto}
use pglite_go.Vfs.Memory.{root, get}
use pglite_go.Vfs.Overlay.{Lower}
use pglite_go.Vfs.System.{Fs, new_fs}
use pglite_go.Vfs.Paths.{
  at_cwd, mkdir_all_at, write_file, symlink_at, chdir, open_at, stat, lstat_at, access, unlink_at,
  rmdir, rename,
}
use pglite_go.Vfs.Descriptors.{
  close, read, write, pread, pwrite, seek_fd, fstat, dup, readdir, truncate_fd,
}
use pglite_go.Vfs.Tree.{IsTree, new_mem_fs-IsTree}
use pglite_go.Vfs.Tree.Copy.{IsBelow}
use pglite_go.Vfs.Tree.Climb.{Climbs, walk-Climbs, Climbs-unique, reverse_back}
use pglite_go.Vfs.Tree.Calls.{
  mkdir_all_at-KeepsTree, write_file-KeepsTree, symlink_at-KeepsTree, chdir-KeepsTree,
  stat-KeepsTree, lstat_at-KeepsTree, access-KeepsTree, unlink_at-KeepsTree, rmdir-KeepsTree,
  rename-KeepsTree,
}
use pglite_go.Vfs.Tree.Files.{open_at-KeepsTree}
use pglite_go.Vfs.Tree.Streams.{
  close-KeepsTree, read-KeepsTree, write-KeepsTree, pread-KeepsTree, pwrite-KeepsTree,
  seek_fd-KeepsTree, fstat-KeepsTree, dup-KeepsTree, readdir-KeepsTree, truncate_fd-KeepsTree,
}

-- One call, whether it succeeds or not; the old path of a rename is not the root's.
pub data Step (lower : Option Lower) : Fs → Fs → Type 0 where
  step_mkdir_all : (p : Text) (mode : ℕ) (v : Fs) → Step lower v (mkdir_all_at p mode v).1
  step_write_file :
      (p : Text) (bytes : List ℕ) (mode : ℕ) (v : Fs) → Step lower v (write_file p bytes mode v).1
  step_symlink : (target p : Text) (v : Fs) → Step lower v (symlink_at target p v).1
  step_chdir : (p : Text) (v : Fs) → Step lower v (chdir lower p v).1
  step_open : (p : Text) (flags mode : ℕ) (v : Fs) → Step lower v (open_at lower p flags mode v).1
  step_stat : (p : Text) (v : Fs) → Step lower v (stat lower p v).1
  step_lstat : (p : Text) (v : Fs) → Step lower v (lstat_at lower p v).1
  step_access : (p : Text) (v : Fs) → Step lower v (access lower p v).1
  step_unlink : (p : Text) (v : Fs) → Step lower v (unlink_at lower p v).1
  step_rmdir : (p : Text) (v : Fs) → Step lower v (rmdir lower p v).1
  step_rename :
      (old new : Text) (v : Fs) → IsBelow (at_cwd v old) → Step lower v (rename lower old new v).1
  step_close : (fd : ℕ) (v : Fs) → Step lower v (close fd v).1
  step_read : (fd n : ℕ) (v : Fs) → Step lower v (read fd n v).1
  step_write : (fd : ℕ) (p : List ℕ) (v : Fs) → Step lower v (write fd p v).1
  step_pread : (fd n : ℕ) (off : ℤ) (v : Fs) → Step lower v (pread fd n off v).1
  step_pwrite : (fd : ℕ) (p : List ℕ) (off : ℤ) (v : Fs) → Step lower v (pwrite fd p off v).1
  step_seek : (fd : ℕ) (off : ℤ) (whence : ℕ) (v : Fs) → Step lower v (seek_fd fd off whence v).1
  step_fstat : (fd : ℕ) (v : Fs) → Step lower v (fstat fd v).1
  step_readdir : (fd : ℕ) (v : Fs) → Step lower v (readdir lower fd v).1
  step_truncate : (fd : ℕ) (len : ℤ) (v : Fs) → Step lower v (truncate_fd lower fd len v).1
  step_dup : (fd : ℕ) (v : Fs) → Step lower v (dup fd v).1

-- The calls in a row that lead from New to a state.
pub data Reached (lower : Option Lower) : Fs → Type 0 where
  start : Reached lower new_fs
  after : {v w : Fs} → Reached lower v → Step lower v w → Reached lower w

abbrev KeepsState : Fs → Type 0
KeepsState v = IsTree v.mem

Step-IsTree : (lower : Option Lower) {v w : Fs} → Step lower v w → IsTree v.mem → IsTree w.mem
Step-IsTree lower (step_mkdir_all p mode v) t =
    Holds-state KeepsState _ (mkdir_all_at p mode v) (mkdir_all_at-KeepsTree p mode v t)
Step-IsTree lower (step_write_file p bytes mode v) t =
    Holds-state KeepsState _ (write_file p bytes mode v) (write_file-KeepsTree p bytes mode v t)
Step-IsTree lower (step_symlink target p v) t =
    Holds-state KeepsState _ (symlink_at target p v) (symlink_at-KeepsTree target p v t)
Step-IsTree lower (step_chdir p v) t =
    Holds-state KeepsState _ (chdir lower p v) (chdir-KeepsTree lower p v t)
Step-IsTree lower (step_open p flags mode v) t =
    Holds-state KeepsState _ (open_at lower p flags mode v)
      (open_at-KeepsTree lower p flags mode v t)
Step-IsTree lower (step_stat p v) t =
    Holds-state KeepsState _ (stat lower p v) (stat-KeepsTree lower p v t)
Step-IsTree lower (step_lstat p v) t =
    Holds-state KeepsState _ (lstat_at lower p v) (lstat_at-KeepsTree lower p v t)
Step-IsTree lower (step_access p v) t =
    Holds-state KeepsState _ (access lower p v) (access-KeepsTree lower p v t)
Step-IsTree lower (step_unlink p v) t =
    Holds-state KeepsState _ (unlink_at lower p v) (unlink_at-KeepsTree lower p v t)
Step-IsTree lower (step_rmdir p v) t =
    Holds-state KeepsState _ (rmdir lower p v) (rmdir-KeepsTree lower p v t)
Step-IsTree lower (step_rename old new v below) t =
    Holds-state KeepsState _ (rename lower old new v) (rename-KeepsTree lower old new v below t)
Step-IsTree lower (step_close fd v) t =
    Holds-state KeepsState _ (close fd v) (close-KeepsTree fd v t)
Step-IsTree lower (step_read fd n v) t =
    Holds-state KeepsState _ (read fd n v) (read-KeepsTree fd n v t)
Step-IsTree lower (step_write fd p v) t =
    Holds-state KeepsState _ (write fd p v) (write-KeepsTree fd p v t)
Step-IsTree lower (step_pread fd n off v) t =
    Holds-state KeepsState _ (pread fd n off v) (pread-KeepsTree fd n off v t)
Step-IsTree lower (step_pwrite fd p off v) t =
    Holds-state KeepsState _ (pwrite fd p off v) (pwrite-KeepsTree fd p off v t)
Step-IsTree lower (step_seek fd off whence v) t =
    Holds-state KeepsState _ (seek_fd fd off whence v) (seek_fd-KeepsTree fd off whence v t)
Step-IsTree lower (step_fstat fd v) t =
    Holds-state KeepsState _ (fstat fd v) (fstat-KeepsTree fd v t)
Step-IsTree lower (step_readdir fd v) t =
    Holds-state KeepsState _ (readdir lower fd v) (readdir-KeepsTree lower fd v t)
Step-IsTree lower (step_truncate fd len v) t =
    Holds-state KeepsState _ (truncate_fd lower fd len v) (truncate_fd-KeepsTree lower fd len v t)
Step-IsTree lower (step_dup fd v) t = Holds-state KeepsState _ (dup fd v) (dup-KeepsTree fd v t)

-- In every state that calls of the file system lead to from New, each link of a directory leads to
-- a node in use that has this directory as its parent and this name as its name, so that no node
-- has two links; the root is a directory without a parent; and addresses that are not in use have
-- no links. The calls are MkdirAll, WriteFile, Symlink, Chdir, Open, Stat, Lstat, Access, Unlink,
-- Rmdir, Rename of a path other than the root's, Close, Read, Write, Pread, Pwrite, Seek, Fstat,
-- Readdir, Truncate and Dup, whether they succeed or not.
pub reached-IsTree : (lower : Option Lower) {v : Fs} → Reached lower v → IsTree v.mem
reached-IsTree lower start = new_mem_fs-IsTree
reached-IsTree lower (after r s) = Step-IsTree lower s (reached-IsTree lower r)

-- In a reachable state, two names at which memFS.get finds the same node have the same components.
pub get_one_path :
    (lower : Option Lower) {v : Fs} (p q : Text) (n : ℕ)
    → Reached lower v
    → get p v.mem ≡ some n
    → get q v.mem ≡ some n
    → split_name p ≡ split_name q
unfolding get Climbs
get_one_path lower {v} p q n r e f =
    let t = reached-IsTree lower r in
    let up = walk-Climbs v.mem root [] (split_name p) n refl e in
    let up' = walk-Climbs v.mem root [] (split_name q) n refl f in
    let same =
      Climbs-unique v.mem (reverse_onto (split_name p) []) (reverse_onto (split_name q) []) n t up
        up' in
    sym (reverse_back (split_name p))
    ∙ ap (λ ts. reverse_onto ts []) same
    ∙ reverse_back (split_name q)
