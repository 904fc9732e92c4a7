-- ===== src/Vfs/Tree/Streams.antt =====
-- The calls of vfs/vfs.go on descriptors keep the nodes a tree.
use pglite_go.Base.{
  ℕ, zero, suc, false, Bool-cases, inl, inr, Option, none, some, List, ltb, length,
}
use pglite_go.Base.Outcome.{Outcome, ok, err, panic, stuck}
use pglite_go.Base.Action.{Act, continue, ◌>>=◌, Holds, Holds-continue}
use pglite_go.Wire.Bytes.{ℤ, pos, negsuc}
use pglite_go.Vfs.File.{
  Node, Fault, eof, negative_offset, invalid_whence, permission, write_at, truncate, add_int,
}
use pglite_go.Vfs.Memory.{Memory, is_directory, is_regular}
use pglite_go.Vfs.Overlay.{Lower, Ref, upper, node_of, copy_up}
use pglite_go.Vfs.System.{
  Handle, mem_handle, own_handle, buffer, OpenFile, Fs, fd_get, fd_erase, set_fd, on_mem, new_fd,
}
use pglite_go.Vfs.Descriptors.{
  with_open, with_fd, close, handle_read, read_result, advance, ref_size, buffer_of, stored,
  handle_write, read_handle, read, write_handle, write_done, write, pread_handle, pread,
  pwrite_handle, pwrite, seek_to, seek_whence, seek_fd, dup_of, dup, resized, resize, adopt,
  truncate_node, truncate_fd, is_file, node_or_bad, fstat, dir_names, readdir, write_result,
}
use pglite_go.Vfs.Tree.{IsTree}
use pglite_go.Vfs.Tree.Calls.{KeepsTree, on_mem-KeepsTree}
use pglite_go.Vfs.Tree.Files.{store-IsTree, copy_up-at}

with_fd-KeepsTree :
    {A : Type 0} (fd : ℕ) (f : OpenFile → Act Fs A) (v : Fs)
    → IsTree v.mem
    → ((of : OpenFile) → KeepsTree (f of v))
    → KeepsTree (with_fd fd f v)
with_fd-KeepsTree fd f v t h = opened (fd_get fd v.fds)
  where
    opened : (o : Option OpenFile) → KeepsTree (with_open o f v)
    opened none = t
    opened (some of) = h of

module _ (lower : Option Lower) where
  resized-Holds :
      (k : ℕ) (m : Memory) (o : Outcome Node)
      → IsTree m
      → Holds IsTree (λ a s. Unit {0}) (resized lower k m o)
  resized-Holds k m (ok b) t = (store-IsTree k (some b) m t, tt)
  resized-Holds k m (err e) t = t
  resized-Holds k m panic t = t
  resized-Holds k m stuck t = t

  truncate_node-KeepsTree :
      (fd : ℕ) (len : ℤ) (of : OpenFile) (o : Option Ref) (v : Fs)
      → IsTree v.mem
      → KeepsTree (truncate_node lower fd len of o v)
  truncate_node-KeepsTree fd len of none v t = t
  truncate_node-KeepsTree fd len of (some r) v t =
      elim (Bool-cases (is_regular (node_of r v.mem).type)) [
        | inr other ↦ rw other t
        | inl file ↦
            let rest = λ (k : ℕ). adopt lower fd of k >>= λ u. on_mem (resize lower k len) in
            let all : KeepsTree (continue (on_mem (copy_up lower of.path r false) v) rest) =
              Holds-continue (λ a w. Unit {0}) (on_mem (copy_up lower of.path r false) v) rest
                (λ w t'. t')
                (λ k w t' made.
                  on_mem-KeepsTree (resize lower k len w.mem)
                    (set_fd fd (record of { node = some (upper k); handle = some (mem_handle k) })
                      w)
                    (λ a s. Unit {0})
                    (resized-Holds k w.mem (truncate (buffer_of (w.mem.at k).bytes) len) t'))
                (copy_up-at lower of.path r false v t) in
            rw file all
      ]

  pub truncate_fd-KeepsTree :
      (fd : ℕ) (len : ℤ) (v : Fs) → IsTree v.mem → KeepsTree (truncate_fd lower fd len v)
  unfolding truncate_fd
  truncate_fd-KeepsTree fd len v t =
      with_fd-KeepsTree fd (λ of. truncate_node lower fd len of of.node) v t
        (λ of. truncate_node-KeepsTree fd len of of.node v t)

  dir_names-KeepsTree :
      (of : OpenFile) (o : Option Ref) (v : Fs) → IsTree v.mem → KeepsTree (dir_names lower of o v)
  dir_names-KeepsTree of none v t = t
  dir_names-KeepsTree of (some r) v t = elim (Bool-cases (is_directory (node_of r v.mem).type)) [
    | inl d ↦ rw d (t, tt)
    | inr f ↦ rw f t
  ]

  pub readdir-KeepsTree : (fd : ℕ) (v : Fs) → IsTree v.mem → KeepsTree (readdir lower fd v)
  unfolding readdir
  readdir-KeepsTree fd v t =
      with_fd-KeepsTree fd (λ of. dir_names lower of of.node) v t
        (λ of. dir_names-KeepsTree of of.node v t)

pub close-KeepsTree : (fd : ℕ) (v : Fs) → IsTree v.mem → KeepsTree (close fd v)
unfolding close
close-KeepsTree fd v t =
    with_fd-KeepsTree fd (λ of v. (ok tt, record v { fds = fd_erase fd v.fds })) v t (λ of. (t, tt))

write_result-KeepsTree :
    (r : ℕ × Option Fault) (v : Fs) → IsTree v.mem → KeepsTree {A = ℕ} (write_result r, v)
write_result-KeepsTree (n, none) v t = (t, tt)
write_result-KeepsTree (n, some f) v t = t

read_result-KeepsTree :
    (r : List ℕ × Option Fault) (v : Fs) → IsTree v.mem → KeepsTree {A = List ℕ} (read_result r, v)
read_result-KeepsTree (bs, none) v t = (t, tt)
read_result-KeepsTree (bs, some eof) v t = (t, tt)
read_result-KeepsTree (bs, some negative_offset) v t = t
read_result-KeepsTree (bs, some invalid_whence) v t = t
read_result-KeepsTree (bs, some permission) v t = t

stored-Holds :
    (k : ℕ) (m : Memory) (o : Outcome (Node × (ℕ × Option Fault)))
    → IsTree m
    → Holds IsTree (λ a s. Unit {0}) (stored k m o)
stored-Holds k m (ok (b, (n, none))) t = (store-IsTree k (some b) m t, tt)
stored-Holds k m (ok (b, (n, some f))) t = (t, tt)
stored-Holds k m (err e) t = t
stored-Holds k m panic t = t
stored-Holds k m stuck t = t

handle_write-Holds :
    (h : Handle) (p : List ℕ) (off : ℤ) (m : Memory)
    → IsTree m
    → Holds IsTree (λ a s. Unit {0}) (handle_write h p off m)
unfolding handle_write
handle_write-Holds (mem_handle k) p off m t =
    stored-Holds k m (write_at (buffer_of (m.at k).bytes) p off) t
handle_write-Holds (own_handle s) p off m t = (t, tt)
handle_write-Holds (buffer bs) p off m t = (t, tt)

written-at :
    (h : Handle) (p : List ℕ) (off : ℤ) (v : Fs)
    → IsTree v.mem
    → Holds (λ w. IsTree w.mem) (λ a w. Unit {0}) (on_mem (handle_write h p off) v)
written-at h p off v t =
    on_mem-KeepsTree (handle_write h p off v.mem) v (λ a s. Unit {0})
      (handle_write-Holds h p off v.mem t)

read_handle-KeepsTree :
    (fd n : ℕ) (of : OpenFile) (o : Option Handle) (v : Fs)
    → IsTree v.mem
    → KeepsTree (read_handle fd n of o v)
read_handle-KeepsTree fd n of none v t = t
read_handle-KeepsTree fd n of (some h) v t = elim (Bool-cases (is_file of.node v.mem)) [
  | inr other ↦ rw other t
  | inl file ↦
      let r = handle_read h v.mem n of.offset in
      rw file (read_result-KeepsTree r (advance fd of (length r.0) v) t)
]

pub read-KeepsTree : (fd n : ℕ) (v : Fs) → IsTree v.mem → KeepsTree (read fd n v)
unfolding read
read-KeepsTree fd n v t =
    with_fd-KeepsTree fd (λ of. read_handle fd n of of.handle) v t
      (λ of. read_handle-KeepsTree fd n of of.handle v t)

write_handle-KeepsTree :
    (fd : ℕ) (p : List ℕ) (of : OpenFile) (o : Option Handle) (v : Fs)
    → IsTree v.mem
    → KeepsTree (write_handle fd p of o v)
write_handle-KeepsTree fd p of none v t = t
write_handle-KeepsTree fd p of (some h) v t = elim (Bool-cases (is_file of.node v.mem)) [
  | inr other ↦ rw other t
  | inl file ↦
      let all : KeepsTree (continue (on_mem (handle_write h p of.offset) v) (write_done fd of)) =
        Holds-continue (λ a w. Unit {0}) (on_mem (handle_write h p of.offset) v) (write_done fd of)
          (λ w t'. t') (λ r w t' p'. write_result-KeepsTree r (advance fd of r.0 w) t')
          (written-at h p of.offset v t) in
      rw file all
]

pub write-KeepsTree : (fd : ℕ) (p : List ℕ) (v : Fs) → IsTree v.mem → KeepsTree (write fd p v)
unfolding write
write-KeepsTree fd p v t =
    with_fd-KeepsTree fd (λ of. write_handle fd p of of.handle) v t
      (λ of. write_handle-KeepsTree fd p of of.handle v t)

pread_handle-KeepsTree :
    (n : ℕ) (off : ℤ) (o : Option Handle) (v : Fs)
    → IsTree v.mem
    → KeepsTree (pread_handle n off o v)
pread_handle-KeepsTree n off none v t = t
pread_handle-KeepsTree n off (some h) v t = read_result-KeepsTree (handle_read h v.mem n off) v t

pub pread-KeepsTree : (fd n : ℕ) (off : ℤ) (v : Fs) → IsTree v.mem → KeepsTree (pread fd n off v)
unfolding pread
pread-KeepsTree fd n off v t =
    with_fd-KeepsTree fd (λ of. pread_handle n off of.handle) v t
      (λ of. pread_handle-KeepsTree n off of.handle v t)

pwrite_handle-KeepsTree :
    (p : List ℕ) (off : ℤ) (o : Option Handle) (v : Fs)
    → IsTree v.mem
    → KeepsTree (pwrite_handle p off o v)
pwrite_handle-KeepsTree p off none v t = t
pwrite_handle-KeepsTree p off (some h) v t =
    Holds-continue (λ a w. Unit {0}) (on_mem (handle_write h p off) v) (λ r w. (write_result r, w))
      (λ w t'. t') (λ r w t' p'. write_result-KeepsTree r w t') (written-at h p off v t)

pub pwrite-KeepsTree :
    (fd : ℕ) (p : List ℕ) (off : ℤ) (v : Fs) → IsTree v.mem → KeepsTree (pwrite fd p off v)
unfolding pwrite
pwrite-KeepsTree fd p off v t =
    with_fd-KeepsTree fd (λ of. pwrite_handle p off of.handle) v t
      (λ of. pwrite_handle-KeepsTree p off of.handle v t)

seek_to-KeepsTree :
    (fd : ℕ) (of : OpenFile) (off : ℤ) (v : Fs) → IsTree v.mem → KeepsTree (seek_to fd of off v)
seek_to-KeepsTree fd of (pos n) v t = (t, tt)
seek_to-KeepsTree fd of (negsuc n) v t = t

seek_whence-KeepsTree :
    (fd : ℕ) (of : OpenFile) (off : ℤ) (w : ℕ) (v : Fs)
    → IsTree v.mem
    → KeepsTree (seek_whence fd of off w v)
unfolding seek_whence
seek_whence-KeepsTree fd of off zero v t = seek_to-KeepsTree fd of off v t
seek_whence-KeepsTree fd of off (suc zero) v t = seek_to-KeepsTree fd of (add_int of.offset off) v t
seek_whence-KeepsTree fd of off (suc (suc zero)) v t =
    seek_to-KeepsTree fd of (add_int (pos (ref_size of.node v.mem)) off) v t
seek_whence-KeepsTree fd of off (suc (suc (suc w))) v t = t

pub seek_fd-KeepsTree :
    (fd : ℕ) (off : ℤ) (w : ℕ) (v : Fs) → IsTree v.mem → KeepsTree (seek_fd fd off w v)
unfolding seek_fd
seek_fd-KeepsTree fd off w v t =
    with_fd-KeepsTree fd (λ of. seek_whence fd of off w) v t
      (λ of. seek_whence-KeepsTree fd of off w v t)

dup_of-KeepsTree :
    (fd : ℕ) (o : Option OpenFile) (v : Fs) → IsTree v.mem → KeepsTree (dup_of fd o v)
unfolding new_fd
dup_of-KeepsTree fd (some of) v t = (t, tt)
dup_of-KeepsTree fd none v t = elim (Bool-cases (ltb fd 3)) [
  | inl std ↦ rw std (t, tt)
  | inr bad ↦ rw bad t
]

pub dup-KeepsTree : (fd : ℕ) (v : Fs) → IsTree v.mem → KeepsTree (dup fd v)
unfolding dup
dup-KeepsTree fd v t = dup_of-KeepsTree fd (fd_get fd v.fds) v t

node_or_bad-KeepsTree : (o : Option Ref) (v : Fs) → IsTree v.mem → KeepsTree (node_or_bad o v)
node_or_bad-KeepsTree none v t = t
node_or_bad-KeepsTree (some r) v t = (t, tt)

pub fstat-KeepsTree : (fd : ℕ) (v : Fs) → IsTree v.mem → KeepsTree (fstat fd v)
unfolding fstat
fstat-KeepsTree fd v t =
    with_fd-KeepsTree fd (λ of. node_or_bad of.node) v t (λ of. node_or_bad-KeepsTree of.node v t)
