-- ===== src/Vfs/System.antt =====
-- The state of vfs/vfs.go: the upper layer, the working directory and the descriptor table.
use pglite_go.Base.{ℕ, ◌+◌, ◌%◌, ◌^◌, Option, none, some, List, [], ◌∷◌, ◌==◌, if◌then◌else◌}
use pglite_go.Base.Outcome.{Outcome, ok}
use pglite_go.Base.Action.{Act, ◌>>=◌}
use pglite_go.Wire.Bytes.{ℤ}
use pglite_go.Vfs.Path.{Text}
use pglite_go.Vfs.Memory.{Memory, new_mem_fs}
use pglite_go.Vfs.Overlay.{Source, Ref}

-- A File: memHandle of an upper node, the source's own, or roBufHandle.
pub data Handle : Type 0 where
  mem_handle : ℕ → Handle
  own_handle : Source → Handle
  buffer : List ℕ → Handle

pub record OpenFile : Type 0 where
  pub handle : Option Handle
  pub node : Option Ref
  pub offset : ℤ
  pub flags : ℕ
  pub path : Text

abbrev pub Fds : Type 0
Fds = List (ℕ × OpenFile)

-- A descriptor is an int32, given as its bit pattern.
pub record Fs : Type 0 where
  pub mem : Memory
  pub cwd : Text
  pub fds : Fds
  pub next_fd : ℕ

-- New
abbrev pub new_fs : Fs
new_fs = record { mem = new_mem_fs; cwd = b'/' ∷ []; fds = []; next_fd = 3 }

-- v.fds[fd], delete(v.fds, fd) and v.fds[fd] = of.
unfoldable pub fd_get : ℕ → Fds → Option OpenFile
fd_get fd [] = none
fd_get fd ((k, f) ∷ fds) = let rest = fd_get fd fds in if k == fd then some f else rest

unfoldable pub fd_erase : ℕ → Fds → Fds
fd_erase fd [] = []
fd_erase fd ((k, f) ∷ fds) = let rest = fd_erase fd fds in if k == fd then rest else (k, f) ∷ rest

unfoldable pub fd_set : ℕ → OpenFile → Fds → Fds
unfolding fd_erase
fd_set fd f fds = (fd, f) ∷ fd_erase fd fds

-- A method of the upper layer.
abbrev pub back : {A : Type 0} → Outcome A × Memory → Fs → Outcome A × Fs
back (o, m) v = (o, record v { mem = m })

abbrev pub on_mem : {A : Type 0} → Act Memory A → Act Fs A
on_mem a v = back (a v.mem) v

abbrev pub done_with : {A : Type 0} → Act Memory A → Act Fs (Unit {0})
done_with a = on_mem a >>= λ r v. (ok tt, v)

abbrev pub set_fd : ℕ → OpenFile → Fs → Fs
set_fd fd f v = record v { fds = fd_set fd f v.fds }

-- A new descriptor: `fd := v.nextFD; v.nextFD++; v.fds[fd] = of`.
unfoldable pub new_fd : OpenFile → Act Fs ℕ
new_fd f v =
    (ok v.next_fd, record v { fds = fd_set v.next_fd f v.fds; next_fd = (v.next_fd + 1) % 2 ^ 32 })
