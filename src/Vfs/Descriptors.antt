-- ===== src/Vfs/Descriptors.antt =====
-- The operations of vfs/vfs.go on descriptors.
use pglite_go.Base.{
  ℕ, zero, suc, ◌+◌, Bool, false, Option, none, some, List, [], ◌∷◌, ◌++◌, length, ltb,
  if◌then◌else◌, codes,
}
use pglite_go.Base.Outcome.{
  Error, Outcome, ok, err, panic, stuck, not_directory, not_regular, bad_fd, invalid_argument,
  read_failed, permission_denied,
}
use pglite_go.Base.Action.{Act, ◌>>=◌, ◌>>◌}
use pglite_go.Wire.Bytes.{ℤ, pos, negsuc}
use pglite_go.Vfs.Path.{Text}
use pglite_go.Vfs.File.{
  Node, Fault, eof, negative_offset, invalid_whence, permission, read_at, write_at, truncate,
  add_int,
}
use pglite_go.Vfs.Memory.{is_regular, is_directory, Inode, size, Memory, set_node}
use pglite_go.Vfs.Overlay.{Lower, Ref, upper, node_of, copy_up, readdir_names}
use pglite_go.Vfs.System.{
  Handle, mem_handle, own_handle, buffer, OpenFile, Fs, fd_get, fd_erase, set_fd, on_mem, new_fd,
}

-- A call's descriptor, or the error of an unknown one.
abbrev pub with_open : {A : Type 0} → Option OpenFile → (OpenFile → Act Fs A) → Act Fs A
with_open none f v = (err bad_fd, v)
with_open (some of) f v = f of v

abbrev pub with_fd : {A : Type 0} → ℕ → (OpenFile → Act Fs A) → Act Fs A
with_fd fd f v = with_open (fd_get fd v.fds) f v

-- Closing a handle does nothing.
unfoldable pub close : ℕ → Act Fs (Unit {0})
close fd = with_fd fd (λ of v. (ok tt, record v { fds = fd_erase fd v.fds }))

abbrev pub fault_error : Fault → Error
fault_error eof = read_failed
fault_error negative_offset = invalid_argument
fault_error invalid_whence = invalid_argument
fault_error permission = permission_denied

-- The bytes of a node; a nil Data is an empty slice without capacity.
abbrev pub buffer_of : Option Node → Node
buffer_of none = record { content = []; spare = [] }
buffer_of (some b) = b

unfoldable pub handle_read : Handle → Memory → ℕ → ℤ → List ℕ × Option Fault
handle_read (mem_handle k) m n off = read_at (buffer_of (m.at k).bytes).content n off
handle_read (own_handle s) m n off = s.read_at n off
handle_read (buffer bs) m n off = read_at bs n off

abbrev pub stored :
    ℕ → Memory → Outcome (Node × (ℕ × Option Fault)) → Outcome (ℕ × Option Fault) × Memory
stored k m (ok (b, (n, none))) = (ok (n, none), set_node k (record (m.at k) { bytes = some b }) m)
stored k m (ok (b, (n, some f))) = (ok (n, some f), m)
stored k m (err e) = (err e, m)
stored k m panic = (panic, m)
stored k m stuck = (stuck, m)

unfoldable pub handle_write : Handle → List ℕ → ℤ → Act Memory (ℕ × Option Fault)
handle_write (mem_handle k) p off m = stored k m (write_at (buffer_of (m.at k).bytes) p off)
handle_write (own_handle s) p off m = (ok (s.write_at p off), m)
handle_write (buffer bs) p off m = (ok (0, some permission), m)

-- The end of the file is no error of a read.
abbrev pub read_result : List ℕ × Option Fault → Outcome (List ℕ)
read_result (bs, none) = ok bs
read_result (bs, some eof) = ok bs
read_result (bs, some negative_offset) = err invalid_argument
read_result (bs, some invalid_whence) = err invalid_argument
read_result (bs, some permission) = err permission_denied

abbrev pub write_result : ℕ × Option Fault → Outcome ℕ
write_result (n, none) = ok n
write_result (n, some f) = err (fault_error f)

-- The node's type, where a descriptor has a node.
abbrev pub is_file : Option Ref → Memory → Bool
is_file none m = false
is_file (some r) m = is_regular (node_of r m).type

abbrev pub advance : ℕ → OpenFile → ℕ → Fs → Fs
advance fd of n v = set_fd fd (record of { offset = add_int of.offset (pos n) }) v

abbrev pub read_handle : ℕ → ℕ → OpenFile → Option Handle → Act Fs (List ℕ)
read_handle fd n of none v = (err not_regular, v)
read_handle fd n of (some h) v =
    if is_file of.node v.mem
    then (let r = handle_read h v.mem n of.offset in (read_result r, advance fd of (length r.0) v))
    else (err not_regular, v)

unfoldable pub read : ℕ → ℕ → Act Fs (List ℕ)
read fd n = with_fd fd (λ of. read_handle fd n of of.handle)

abbrev pub write_done : ℕ → OpenFile → ℕ × Option Fault → Act Fs ℕ
write_done fd of r v = (write_result r, advance fd of r.0 v)

abbrev pub write_handle : ℕ → List ℕ → OpenFile → Option Handle → Act Fs ℕ
write_handle fd p of none v = (err not_regular, v)
write_handle fd p of (some h) v =
    if is_file of.node v.mem
    then (do r ← on_mem (handle_write h p of.offset); write_done fd of r) v
    else (err not_regular, v)

unfoldable pub write : ℕ → List ℕ → Act Fs ℕ
write fd p = with_fd fd (λ of. write_handle fd p of of.handle)

abbrev pub pread_handle : ℕ → ℤ → Option Handle → Act Fs (List ℕ)
pread_handle n off none v = (err bad_fd, v)
pread_handle n off (some h) v = (read_result (handle_read h v.mem n off), v)

unfoldable pub pread : ℕ → ℕ → ℤ → Act Fs (List ℕ)
pread fd n off = with_fd fd (λ of. pread_handle n off of.handle)

abbrev pub pwrite_handle : List ℕ → ℤ → Option Handle → Act Fs ℕ
pwrite_handle p off none v = (err bad_fd, v)
pwrite_handle p off (some h) v = (do r ← on_mem (handle_write h p off); λ w. (write_result r, w)) v

unfoldable pub pwrite : ℕ → List ℕ → ℤ → Act Fs ℕ
pwrite fd p off = with_fd fd (λ of. pwrite_handle p off of.handle)

abbrev pub ref_size : Option Ref → Memory → ℕ
ref_size none m = 0
ref_size (some r) m = size (node_of r m)

abbrev pub seek_to : ℕ → OpenFile → ℤ → Act Fs ℤ
seek_to fd of (pos n) v = (ok (pos n), set_fd fd (record of { offset = pos n }) v)
seek_to fd of (negsuc n) v = (err invalid_argument, v)

unfoldable pub seek_whence : ℕ → OpenFile → ℤ → ℕ → Act Fs ℤ
seek_whence fd of offset zero v = seek_to fd of offset v
seek_whence fd of offset (suc zero) v = seek_to fd of (add_int of.offset offset) v
seek_whence fd of offset (suc (suc zero)) v =
    seek_to fd of (add_int (pos (ref_size of.node v.mem)) offset) v
seek_whence fd of offset (suc (suc (suc w))) v = (err invalid_argument, v)

unfoldable pub seek_fd : ℕ → ℤ → ℕ → Act Fs ℤ
seek_fd fd offset whence = with_fd fd (λ of. seek_whence fd of offset whence)

abbrev pub node_or_bad : Option Ref → Act Fs Inode
node_or_bad none v = (err bad_fd, v)
node_or_bad (some r) v = (ok (node_of r v.mem), v)

unfoldable pub fstat : ℕ → Act Fs Inode
fstat fd = with_fd fd (λ of. node_or_bad of.node)

-- The placeholder that `Dup` makes for a standard stream.
abbrev pub std_file : ℕ → OpenFile
std_file fd = record {
  handle = none;
  node = none;
  offset = pos 0;
  flags = 0;
  path = codes "/dev/std" ++ ((b'0' + fd) ∷ []);
}

abbrev pub dup_of : ℕ → Option OpenFile → Act Fs ℕ
dup_of old_fd none v = if ltb old_fd 3 then new_fd (std_file old_fd) v else (err bad_fd, v)
dup_of old_fd (some of) v = new_fd of v

unfoldable pub dup : ℕ → Act Fs ℕ
dup old_fd v = dup_of old_fd (fd_get old_fd v.fds) v

module _ (lower : Option Lower) where
  abbrev pub dir_names : OpenFile → Option Ref → Act Fs (List Text)
  dir_names of none v = (err bad_fd, v)
  dir_names of (some r) v =
      if is_directory (node_of r v.mem).type
      then (ok (readdir_names lower of.path v.mem), v)
      else (err not_directory, v)

  unfoldable pub readdir : ℕ → Act Fs (List Text)
  readdir fd = with_fd fd (λ of. dir_names of of.node)

  abbrev pub resized : ℕ → Memory → Outcome Node → Outcome (Unit {0}) × Memory
  resized k m (ok b) = (ok tt, set_node k (record (m.at k) { bytes = some b }) m)
  resized k m (err e) = (err e, m)
  resized k m panic = (panic, m)
  resized k m stuck = (stuck, m)

  abbrev pub resize : ℕ → ℤ → Act Memory (Unit {0})
  resize k len m = resized k m (truncate (buffer_of (m.at k).bytes) len)

  -- The descriptor goes over to the upper node.
  abbrev pub adopt : ℕ → OpenFile → ℕ → Act Fs (Unit {0})
  adopt fd of k v =
      (ok tt, set_fd fd (record of { node = some (upper k); handle = some (mem_handle k) }) v)

  abbrev pub truncate_node : ℕ → ℤ → OpenFile → Option Ref → Act Fs (Unit {0})
  truncate_node fd len of none v = (err not_regular, v)
  truncate_node fd len of (some r) v =
      if is_regular (node_of r v.mem).type
      then (do k ← on_mem (copy_up lower of.path r false); adopt fd of k; on_mem (resize k len)) v
      else (err not_regular, v)

  unfoldable pub truncate_fd : ℕ → ℤ → Act Fs (Unit {0})
  truncate_fd fd len = with_fd fd (λ of. truncate_node fd len of of.node)
