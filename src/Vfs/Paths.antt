-- ===== src/Vfs/Paths.antt =====
-- The operations of vfs/vfs.go on paths.
use pglite_go.Base.{
  ℕ, Bool, true, false, ◌&&◌, Option, none, some, List, [], ◌∷◌, ◌==◌, if◌then◌else◌, bit_and,
}
use pglite_go.Base.Outcome.{
  Outcome, ok, err, panic, not_exist, not_directory, is_directory as is_a_directory, not_empty,
  read_failed, ◌>>=◌ as ◌>>=ᵒ◌,
}
use pglite_go.Base.Action.{Act, ◌>>=◌, ◌>>◌}
use pglite_go.Wire.Bytes.{pos}
use pglite_go.Vfs.Path.{Text, resolve, rel_name}
use pglite_go.Vfs.Memory.{
  regular, is_regular, is_directory, Inode, new_node, new_link, size, Memory, alloc, set_node,
  detach, mkdir_all, place, place_new, o_creat, o_trunc, has_flag,
}
use pglite_go.Vfs.Overlay.{
  Lower, LowerFile, Ref, upper, synth, node_of, in_upper, look, copy_up, hide_lower, remove_child,
  readdir_names,
}
use pglite_go.Vfs.System.{Handle, mem_handle, own_handle, buffer, Fs, on_mem, done_with, new_fd}

abbrev pub at_cwd : Fs → Text → Text
at_cwd v p = resolve v.cwd p

-- Getcwd
abbrev pub getcwd : Fs → Text
getcwd v = v.cwd

unfoldable pub mkdir_all_at : Text → ℕ → Act Fs (Unit {0})
mkdir_all_at p mode v = done_with (mkdir_all (rel_name (at_cwd v p)) mode) v

-- The caller's slice is taken to have no capacity behind its bytes.
abbrev pub file_node : List ℕ → ℕ → Inode
file_node bytes mode = record (new_node regular mode) {
  bytes = some (record { content = bytes; spare = [] });
}

unfoldable pub write_file : Text → List ℕ → ℕ → Act Fs (Unit {0})
write_file p bytes mode v = done_with (place_new (rel_name (at_cwd v p)) (file_node bytes mode)) v

unfoldable pub symlink_at : Text → Text → Act Fs (Unit {0})
symlink_at target link_path v =
    done_with (place_new (rel_name (at_cwd v link_path)) (new_link target)) v

abbrev pub o_access : ℕ
o_access = 3

abbrev pub o_append : ℕ
o_append = 0o2000

-- What a call does with a lookup that found nothing.
abbrev pub found_or : {A : Type 0} → Option (Ref × Text) → (Ref → Text → Act Fs A) → Act Fs A
found_or none f v = (err not_exist, v)
found_or (some (r, resolved)) f v = f r resolved v

-- The address of a node; a made-up one gets its own.
abbrev pub address : Ref → Memory → ℕ × Memory
address (upper n) m = (n, m)
address (synth i) m = alloc i m

module _ (lower : Option Lower) where
  unfoldable pub chdir : Text → Act Fs (Unit {0})
  chdir p v =
      found_or (look lower v.mem true (at_cwd v p))
        (λ r resolved w.
          if is_directory (node_of r w.mem).type
          then (ok tt, record w { cwd = at_cwd v p })
          else (err not_directory, w))
        v

  abbrev pub clear_bytes : ℕ → Act Fs Ref
  clear_bytes n v =
      (ok (upper n), record v { mem = set_node n (record (v.mem.at n) { bytes = none }) v.mem })

  -- The node of an existing file, copied up where it is cut or opened for writing.
  abbrev pub open_found : ℕ → Ref → Text → Act Fs (Ref × Text)
  open_found flags r resolved v =
      if is_regular (node_of r v.mem).type && has_flag flags o_trunc
      then (do
        n ← on_mem (copy_up lower resolved r true)
        q ← clear_bytes n
        λ w. (ok (q, resolved), w))
          v
      else if has_flag flags o_access && is_regular (node_of r v.mem).type
      then (do n ← on_mem (copy_up lower resolved r false); λ w. (ok (upper n, resolved), w)) v
      else (ok (r, resolved), v)

  -- The node that Open works on.
  abbrev pub open_node : Text → ℕ → ℕ → Option (Ref × Text) → Act Fs (Ref × Text)
  open_node abs flags mode none v =
      if bit_and flags o_creat == 0
      then (err not_exist, v)
      else (do
        n ← on_mem (place_new (rel_name abs) (new_node regular mode))
        λ w. (ok (upper n, abs), w))
          v
  open_node abs flags mode (some (r, resolved)) v = open_found flags r resolved v

  abbrev pub buffered : Option (List ℕ) → Outcome Handle
  buffered none = err read_failed
  buffered (some bs) = ok (buffer bs)

  abbrev pub handle_of_file : ℕ → Option LowerFile → Outcome Handle
  handle_of_file n none = err not_exist
  handle_of_file n (some f) = elim f.own [
    | some s ↦ ok (own_handle s)
    | none ↦ buffered (f.read_full n)
  ]

  unfoldable pub open_lower_handle : Text → ℕ → Outcome Handle
  open_lower_handle abs n = elim lower [
    | none ↦ panic
    | some l ↦ handle_of_file n (l.open_lower (rel_name abs))
  ]

  abbrev pub handle_step : Option ℕ → Ref → Text → Act Fs (Option Handle × Ref)
  handle_step (some u) r resolved v =
      let a = address r v.mem in (ok (some (mem_handle a.0), upper a.0), record v { mem = a.1 })
  handle_step none r resolved v =
      ((open_lower_handle resolved (size (node_of r v.mem)) >>=ᵒ λ h. ok (some h, r)), v)

  abbrev pub handle_for : Ref → Text → Act Fs (Option Handle × Ref)
  handle_for r resolved v =
      if is_regular (node_of r v.mem).type
      then handle_step (in_upper resolved v.mem) r resolved v
      else (ok (none, r), v)

  abbrev pub open_as : ℕ → Text → Option Handle → Ref → Act Fs ℕ
  open_as flags resolved h r v =
      new_fd
        (record {
          handle = h;
          node = some r;
          offset =
              if has_flag flags o_append && is_regular (node_of r v.mem).type
              then pos (size (node_of r v.mem))
              else pos 0;
          flags = flags;
          path = resolved;
        })
        v

  unfoldable pub open_at : Text → ℕ → ℕ → Act Fs ℕ
  open_at p flags mode v =
      (do
        found ← open_node (at_cwd v p) flags mode (look lower v.mem true (at_cwd v p))
        h ← handle_for found.0 found.1
        open_as flags found.1 h.0 h.1)
        v

  unfoldable pub stat : Text → Act Fs Inode
  stat p v =
      found_or (look lower v.mem true (at_cwd v p)) (λ r resolved w. (ok (node_of r w.mem), w)) v

  unfoldable pub lstat_at : Text → Act Fs Inode
  lstat_at p v =
      found_or (look lower v.mem false (at_cwd v p)) (λ r resolved w. (ok (node_of r w.mem), w)) v

  unfoldable pub access : Text → Act Fs (Unit {0})
  access p v = found_or (look lower v.mem true (at_cwd v p)) (λ r resolved w. (ok tt, w)) v

  unfoldable pub unlink_at : Text → Act Fs (Unit {0})
  unlink_at p v =
      found_or (look lower v.mem false (at_cwd v p))
        (λ r resolved w.
          if is_directory (node_of r w.mem).type
          then (err is_a_directory, w)
          else on_mem (remove_child lower (at_cwd v p)) w)
        v

  abbrev pub no_names : List Text → Bool
  no_names [] = true
  no_names (t ∷ ts) = false

  unfoldable pub rmdir : Text → Act Fs (Unit {0})
  rmdir p v =
      found_or (look lower v.mem false (at_cwd v p))
        (λ r resolved w.
          if is_directory (node_of r w.mem).type
          then (if no_names (readdir_names lower (at_cwd v p) w.mem)
              then on_mem (remove_child lower (at_cwd v p)) w
              else (err not_empty, w))
          else (err not_directory, w))
        v

  abbrev pub detached : ℕ → Act Memory (Unit {0})
  detached n m = (ok tt, detach n m)

  -- The steps of Rename once the old path is found.
  unfoldable pub move : Text → Text → Ref → Act Memory (Unit {0})
  move old_abs new_abs r = do
    n ← copy_up lower old_abs r false
    detached n
    hide_lower lower old_abs
    k ← place (rel_name new_abs) n
    λ m. (ok tt, m)

  unfoldable pub rename : Text → Text → Act Fs (Unit {0})
  rename old_path new_path v =
      found_or (look lower v.mem false (at_cwd v old_path))
        (λ r resolved. on_mem (move (at_cwd v old_path) (at_cwd v new_path) r)) v
