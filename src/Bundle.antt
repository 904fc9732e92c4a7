-- ===== src/Bundle.antt =====
-- The read-only layer that holds the installation, bundlefs.go.
--
-- A *bundleNode is an address of a store; `names` is the map of all nodes by their paths. Times are
-- left out. Go lists a map in any order; here it is the order of the list.
pub mod Handles
pub mod Bounds
use pglite_go.Base.{
  ℕ, zero, suc, ◌+◌, ◌-◌, Bool, true, false, not, ◌&&◌, ◌||◌, Option, none, some, List, [], ◌∷◌,
  ◌++◌, length, take, drop, leb, ltb, ◌==◌, if◌then◌else◌, bytes_eq, codes,
}
use pglite_go.Base.Outcome.{
  Outcome, ok, err, panic, not_exist, read_failed, end_of_file, out_of_bounds, ◌>>=◌ as ◌>>=ᵒ◌,
}
use pglite_go.Base.Action.{Act, continue, ◌>>=◌}
use pglite_go.Wire.Bytes.{ℤ, pos, negsuc}
use pglite_go.Wire.Session.{contains}
use pglite_go.Vfs.Path.{Text, clean, trim_prefix, split_slash}
use pglite_go.Vfs.File.{Fault, negative_offset, invalid_whence, permission, read_at, add_int}

-- manifestEntry, its offsets converted to int.
pub record Entry : Type 0 where
  pub filename : Text
  pub start : ℤ
  pub end : ℤ

abbrev pub Children : Type 0
Children = List (Text × ℕ)

-- A file's `children` are a nil map.
pub record BundleNode : Type 0 where
  pub name : Text
  pub is_dir : Bool
  pub mode : ℕ
  pub start : ℕ
  pub end : ℕ
  pub children : Option Children

pub record Bundle : Type 0 where
  pub bytes : List ℕ
  pub next : ℕ
  pub at : ℕ → BundleNode
  pub names : Children

unfoldable pub named : Text → Children → Option ℕ
named name [] = none
named name ((k, n) ∷ cs) = let rest = named name cs in if bytes_eq k name then some n else rest

-- A nil map has no entry.
abbrev pub named_in : Text → Option Children → Option ℕ
named_in name none = none
named_in name (some cs) = named name cs

unfoldable pub without : Text → Children → Children
without name [] = []
without name ((k, n) ∷ cs) =
    let rest = without name cs in if bytes_eq k name then rest else (k, n) ∷ rest

abbrev pub dir_node : Text → BundleNode
dir_node name = record {
  name = name;
  is_dir = true;
  mode = 0o755;
  start = 0;
  end = 0;
  children = some [];
}

abbrev pub file_node : Text → ℕ → ℕ → ℕ → BundleNode
file_node name mode start end = record {
  name = name;
  is_dir = false;
  mode = mode;
  start = start;
  end = end;
  children = none;
}

unfoldable pub empty_bundle : List ℕ → Bundle
empty_bundle bytes = record {
  bytes = bytes;
  next = 1;
  at = λ n. dir_node (b'.' ∷ []);
  names = (b'.' ∷ [], 0) ∷ [];
}

-- `parent.children[base] = n` and `b.nodes[path] = n` for a new node; the first write panics on a
-- nil map.
abbrev pub add_under : ℕ → Text → Text → BundleNode → Option Children → Act Bundle ℕ
add_under parent base path i none b = (panic, b)
add_under parent base path i (some cs) b = (
  ok b.next,
  record b {
    next = suc b.next;
    at = λ k.
        if k == b.next
        then i
        else if k == parent
        then record (b.at parent) { children = some ((base, b.next) ∷ without base cs) }
        else b.at k;
    names = (path, b.next) ∷ without path b.names;
  },
)

abbrev pub add_node : ℕ → Text → Text → BundleNode → Act Bundle ℕ
add_node parent base path i b = add_under parent base path i (b.at parent).children b

abbrev pub extend : Text → Text → Text
extend [] part = part
extend (c ∷ prefix) part = (c ∷ prefix) ++ (b'/' ∷ part)

abbrev pub child_dir : ℕ → Text → Text → Option ℕ → Act Bundle ℕ
child_dir parent part prefix (some c) b = (ok c, b)
child_dir parent part prefix none b = add_node parent part prefix (dir_node part) b

-- The loop of `insert` over the directories, and the file behind them.
unfoldable pub insert_loop : Text → ℕ → ℕ → ℕ → Text → ℕ → Text → List Text → Act Bundle (Unit {0})
insert_loop rel start end mode prefix parent part [] b =
    (add_node parent part rel (file_node part mode start end) >>= λ n b'. (ok tt, b')) b
insert_loop rel start end mode prefix parent part (next ∷ parts) b =
    (child_dir parent part (extend prefix part) (named_in part (b.at parent).children) >>= λ c.
    insert_loop rel start end mode (extend prefix part) c next parts)
      b

abbrev pub insert_parts : Text → ℕ → ℕ → ℕ → List Text → Act Bundle (Unit {0})
insert_parts rel start end mode [] b = (panic, b)
insert_parts rel start end mode (part ∷ parts) b = insert_loop rel start end mode [] 0 part parts b

unfoldable pub insert : Text → ℕ → ℕ → ℕ → Act Bundle (Unit {0})
insert rel start end mode = insert_parts rel start end mode (split_slash rel)

-- strings.HasSuffix
unfoldable pub has_suffix : Text → Text → Bool
has_suffix suffix [] = bytes_eq suffix []
has_suffix suffix (c ∷ s) = bytes_eq suffix (c ∷ s) || has_suffix suffix s

abbrev pub file_mode : Text → ℕ
file_mode name =
    if contains name (codes "/bin/") || has_suffix (codes ".so") name then 0o755 else 0o644

abbrev pub add_range : Text → ℤ → ℤ → Act Bundle (Unit {0})
add_range name (negsuc k) end b = (err out_of_bounds, b)
add_range name (pos start) (negsuc k) b = (err out_of_bounds, b)
add_range name (pos start) (pos end) b =
    if ltb (length b.bytes) end || ltb end start
    then (err out_of_bounds, b)
    else insert (trim_prefix (clean (b'/' ∷ name))) start end (file_mode name) b

unfoldable pub add_entries : List Entry → Act Bundle (Unit {0})
add_entries [] b = (ok tt, b)
add_entries (e ∷ es) b = (add_range e.filename e.start e.end >>= λ u. add_entries es) b

abbrev pub or_failed : {A : Type 0} → Option A → Outcome A
or_failed none = err read_failed
or_failed (some a) = ok a

abbrev pub built : Outcome (Unit {0}) × Bundle → Outcome Bundle
built (ok u, b) = ok b
built (err e, b) = err e
built (panic, b) = panic
built (Outcome.stuck, b) = Outcome.stuck

-- loadBundleFS, of the parsed manifest and the blob, each `none` where it cannot be read.
unfoldable pub load_bundle : Option (List Entry) → Option (List ℕ) → Outcome Bundle
load_bundle manifest blob = or_failed manifest >>=ᵒ λ es.
    or_failed blob >>=ᵒ λ bytes. built (add_entries es (empty_bundle bytes))
