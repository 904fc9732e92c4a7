-- ===== src/Vfs/Shared.antt =====
-- Descriptors of vfs/vfs.go that share a node.
use pglite_go.Base.{ℕ, ◌+◌, ◌^◌, ◌<◌, ◌≡◌, refl, some, List, length}
use pglite_go.Base.Outcome.{ok}
use pglite_go.Wire.Bytes.{pos}
use pglite_go.Vfs.Content.{read_at-write_at}
use pglite_go.Vfs.Memory.{Inode, set_node}
use pglite_go.Vfs.System.{mem_handle, OpenFile, Fs, fd_get}
use pglite_go.Vfs.Descriptors.{buffer_of, handle_write, handle_read, pread, pwrite}
use pglite_go.Vfs.Tree.{at_self}

-- Bytes that Pwrite has written through one descriptor are read by Pread at the same offset
-- through any descriptor of the same node, for at least one byte and an end below 2^63.
pub pread-pwrite :
    (v : Fs) (fd fd' n off : ℕ) (of of' : OpenFile) (p : List ℕ)
    → fd_get fd v.fds ≡ some of
    → fd_get fd' v.fds ≡ some of'
    → of.handle ≡ some (mem_handle n)
    → of'.handle ≡ some (mem_handle n)
    → 0 < length p
    → off + length p < 2 ^ 63
    → (w : Fs) × (pwrite fd p (pos off) v ≡ (ok (length p), w))
      × (pread fd' (length p) (pos off) w ≡ (ok p, w))
unfolding pwrite pread handle_write handle_read
pread-pwrite v fd fd' n off of of' p at_fd at_fd' h h' some_bytes small =
    let (b, wrote, back_again) =
      read_at-write_at (buffer_of (v.mem.at n).bytes) p off some_bytes small in
    let i : Inode = record (v.mem.at n) { bytes = some b } in
    let w : Fs = record v { mem = set_node n i v.mem } in
    let new : w.mem.at n ≡ i = at_self n i v.mem in
    (w, rw (at_fd, h, wrote) refl, rw (at_fd', h', new, back_again) refl)
