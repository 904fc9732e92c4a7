-- ===== src/Vfs/Memory.antt =====
-- The writable layer, vfs/memfs.go.
--
-- A *Node is an address: `Memory` gives the node behind each, and an address is never freed, as a
-- descriptor can hold a node that its directory has lost. The root is address 0. A node's times are
-- left out, and Children is a list with one item a name.
use pglite_go.Base.{
  ℕ, suc, Bool, true, false, not, ◌&&◌, Option, none, some, List, [], ◌∷◌, ◌==◌, if◌then◌else◌,
  bytes_eq, length, bit_and,
}
use pglite_go.Base.Outcome.{ok, err, not_exist, not_directory, not_empty, root_placed}
use pglite_go.Base.Action.{Act, ◌>>=◌}
use pglite_go.Vfs.Path.{Text, join_slash, split_name}
use pglite_go.Vfs.File.{Node}

pub data FileType : Type 0 where
  regular : FileType
  directory : FileType
  symlink : FileType
  whiteout : FileType

abbrev pub is_regular : FileType → Bool
is_regular regular = true
is_regular _ = false

abbrev pub is_directory : FileType → Bool
is_directory directory = true
is_directory _ = false

abbrev pub is_symlink : FileType → Bool
is_symlink symlink = true
is_symlink _ = false

abbrev pub is_whiteout : FileType → Bool
is_whiteout whiteout = true
is_whiteout _ = false

abbrev pub Children : Type 0
Children = List (Text × ℕ)

-- A node; its buffer `bytes` is `none` where Data is nil.
pub record Inode : Type 0 where
  pub name : Text
  pub type : FileType
  pub bytes : Option Node
  pub children : Children
  pub parent : Option ℕ
  pub mode : ℕ
  pub target : Text
  pub data_size : ℕ

-- &Node{Type: type, Mode: mode}
abbrev pub new_node : FileType → ℕ → Inode
new_node type mode = record {
  name = [];
  type = type;
  bytes = none;
  children = [];
  parent = none;
  mode = mode;
  target = [];
  data_size = 0;
}

abbrev pub size_of : Option Node → ℕ → ℕ
size_of none n = n
size_of (some b) n = length b.content

-- Node.Size
unfoldable pub size : Inode → ℕ
size i = elim i.type [
  | symlink ↦ length i.target
  | regular ↦ size_of i.bytes i.data_size
  | directory ↦ 0
  | whiteout ↦ 0
]

pub record Memory : Type 0 where
  pub next : ℕ
  pub at : ℕ → Inode

abbrev pub root : ℕ
root = 0

-- newMemFS
abbrev pub new_mem_fs : Memory
new_mem_fs = record { next = 1; at = λ n. new_node directory 0o755 }

-- Children[name]
unfoldable pub find : Text → Children → Option ℕ
find name [] = none
find name ((k, n) ∷ cs) = let rest = find name cs in if bytes_eq k name then some n else rest

-- delete(Children, name)
unfoldable pub erase : Text → Children → Children
erase name [] = []
erase name ((k, n) ∷ cs) =
    let rest = erase name cs in if bytes_eq k name then rest else (k, n) ∷ rest

-- Children[name] = n
unfoldable pub enter : Text → ℕ → Children → Children
unfolding erase
enter name n cs = (name, n) ∷ erase name cs

abbrev pub set_node : ℕ → Inode → Memory → Memory
set_node n i m = record m { at = λ k. if k == n then i else m.at k }

-- A new node, at an address of its own.
abbrev pub alloc : Inode → Memory → ℕ × Memory
alloc i m = (m.next, record { next = suc m.next; at = λ k. if k == m.next then i else m.at k })

abbrev pub link : ℕ → Text → ℕ → Memory → Memory
link dir name n m =
    set_node dir (record (m.at dir) { children = enter name n (m.at dir).children }) m

abbrev pub unlink : ℕ → Text → Memory → Memory
unlink dir name m = set_node dir (record (m.at dir) { children = erase name (m.at dir).children }) m

-- `delete(n.Parent.Children, n.Name)` where the node has a parent.
abbrev pub detach_from : Option ℕ → Text → Memory → Memory
detach_from none name m = m
detach_from (some dir) name m = unlink dir name m

abbrev pub detach : ℕ → Memory → Memory
detach n m = detach_from (m.at n).parent (m.at n).name m

-- The loop of `get`, from a node on.
unfoldable pub walk : Memory → ℕ → List Text → Option ℕ
walk m n [] = some n
walk m n (part ∷ parts) =
    if is_directory (m.at n).type
    then elim (find part (m.at n).children) [ none ↦ none | some c ↦ walk m c parts ]
    else none

unfoldable pub get : Text → Memory → Option ℕ
get name m = walk m root (split_name name)

-- A fresh directory under `n`.
abbrev pub make_dir : ℕ → ℕ → Text → Memory → ℕ × Memory
make_dir n mode part m =
    let r = alloc (record (new_node directory mode) { name = part; parent = some n }) m in
    (r.0, link n part r.0 r.1)

-- The child that the loop of `mkdirAll` goes on with.
abbrev pub enter_dir : ℕ → ℕ → Text → Option ℕ → Act Memory ℕ
enter_dir n mode part none m = let r = make_dir n mode part m in (ok r.0, r.1)
enter_dir n mode part (some c) m =
    if is_whiteout (m.at c).type
    then (let r = make_dir n mode part m in (ok r.0, r.1))
    else if is_directory (m.at c).type
    then (ok c, m)
    else (err not_directory, m)

unfoldable pub mkdir_loop : ℕ → ℕ → List Text → Act Memory ℕ
mkdir_loop n mode [] m = (ok n, m)
mkdir_loop n mode (part ∷ parts) m =
    if is_directory (m.at n).type
    then (enter_dir n mode part (find part (m.at n).children) >>= λ c. mkdir_loop c mode parts) m
    else (err not_directory, m)

unfoldable pub mkdir_all : Text → ℕ → Act Memory ℕ
mkdir_all name mode = mkdir_loop root mode (split_name name)

abbrev pub parts_front : Text → List Text → List Text
parts_front t [] = []
parts_front t (u ∷ us) = t ∷ parts_front u us

abbrev pub parts_last : Text → List Text → Text
parts_last t [] = t
parts_last t (u ∷ us) = parts_last u us

-- Naming the child, and entering it into its directory.
abbrev pub attach : ℕ → Text → ℕ → Memory → Memory
attach dir name child m =
    link dir name child (set_node child (record (m.at child) { name = name; parent = some dir }) m)

abbrev pub place_parts : List Text → ℕ → Act Memory ℕ
place_parts [] child m = (err root_placed, m)
place_parts (t ∷ ts) child m =
    (mkdir_all (join_slash (parts_front t ts)) 0o755 >>= λ dir m'.
    (ok child, attach dir (parts_last t ts) child m'))
      m

-- `place` for a node that has an address.
unfoldable pub place : Text → ℕ → Act Memory ℕ
place name child = place_parts (split_name name) child

-- `place` of a node that the call makes.
unfoldable pub place_new : Text → Inode → Act Memory ℕ
place_new name i m = let r = alloc i m in place name r.0 r.1

abbrev pub live : Option ℕ → Memory → Option ℕ
live none m = none
live (some n) m = if is_whiteout (m.at n).type then none else some n

abbrev pub or_missing : Option ℕ → Act Memory ℕ
or_missing none m = (err not_exist, m)
or_missing (some n) m = (ok n, m)

-- memFS.Open and memFS.OpenFile: the node of the handle.
unfoldable pub mem_open : Text → Act Memory ℕ
mem_open name m = or_missing (live (get name m) m) m

abbrev pub o_creat : ℕ
o_creat = 0o100

abbrev pub o_trunc : ℕ
o_trunc = 0o1000

-- `flags&f != 0`
abbrev pub has_flag : ℕ → ℕ → Bool
has_flag flags f = not (bit_and flags f == 0)

abbrev pub opened : Text → ℕ → ℕ → Option ℕ → Act Memory ℕ
opened name flag perm none m =
    if bit_and flag o_creat == 0
    then (err not_exist, m)
    else place_new name (new_node regular (bit_and perm 0o777)) m
opened name flag perm (some n) m = (
  ok n,
  if has_flag flag o_trunc && is_regular (m.at n).type
      then set_node n (record (m.at n) { bytes = none }) m
      else m,
)

unfoldable pub open_file : Text → ℕ → ℕ → Act Memory ℕ
open_file name flag perm m = opened name flag perm (live (get name m) m) m

unfoldable pub mkdir : Text → ℕ → Act Memory (Unit {0})
mkdir name perm = do n ← mkdir_all name (bit_and perm 0o777); λ m. (ok tt, m)

abbrev pub has_children : Children → Bool
has_children [] = false
has_children (c ∷ cs) = true

unfoldable pub remove : Text → Act Memory (Unit {0})
remove name = do
  n ← mem_open name
  λ m.
      if is_directory (m.at n).type && has_children (m.at n).children
      then (err not_empty, m)
      else (ok tt, detach n m)

unfoldable pub mem_rename : Text → Text → Act Memory (Unit {0})
mem_rename old_name new_name = do
  n ← mem_open old_name
  λ m. (place new_name n >>= λ k m'. (ok tt, m')) (detach n m)

-- The link that Symlink enters.
abbrev pub new_link : Text → Inode
new_link target = record (new_node symlink 0o777) { target = target }

unfoldable pub mem_symlink : Text → Text → Act Memory (Unit {0})
mem_symlink target link_name = do n ← place_new link_name (new_link target); λ m. (ok tt, m)
