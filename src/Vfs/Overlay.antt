-- ===== src/Vfs/Overlay.antt =====
-- The overlay of vfs/vfs.go over its two layers: the lookup of a path, copying up and whiteouts. The
-- lock is taken as held throughout a call.
use pglite_go.Base.{
  ℕ, zero, suc, Bool, true, false, not, ◌&&◌, ◌||◌, Option, none, some, List, [], ◌∷◌, ◌++◌, length,
  replicate, ◌-◌, if◌then◌else◌, bytes_eq,
}
use pglite_go.Base.Outcome.{Outcome, ok, err, panic, not_exist, read_failed}
use pglite_go.Base.Action.{Act, ◌>>=◌}
use pglite_go.Wire.Bytes.{ℤ}
use pglite_go.Vfs.Path.{
  Text, clean, join, base, rel_name, split_slash, trim_prefix, is_abs, is_empty,
}
use pglite_go.Vfs.File.{Fault}
use pglite_go.Vfs.Memory.{
  regular, directory, symlink, whiteout, is_directory, is_symlink, is_whiteout, Inode, new_node,
  size, Memory, get, live, detach, place_new, Children,
}

-- What fs.Lstat tells of an entry.
pub record Info : Type 0 where
  pub symlink_bit : Bool
  pub dir_bit : Bool
  pub perm : ℕ
  pub bytes_size : ℕ

-- The handle of a source that is a File itself, which is not written through.
pub record Source : Type 0 where
  pub read_at : ℕ → ℤ → List ℕ × Option Fault
  pub write_at : List ℕ → ℤ → ℕ × Option Fault

-- An opened file of the layer: itself, if it is a File, and io.ReadFull into that many bytes, which
-- fails for an error other than the end of the file.
pub record LowerFile : Type 0 where
  pub own : Option Source
  pub read_full : ℕ → Option (List ℕ)

abbrev pub is_nil : List Text → Bool
is_nil [] = true
is_nil (t ∷ ts) = false

-- The read-only layer, an fs.FS: fs.Lstat, whether fs.Stat succeeds, fs.ReadLink, Open and the names
-- of fs.ReadDir, each `none` where it fails.
pub record Lower : Type 0 where
  pub lstat : Text → Option Info
  pub has : Text → Bool
  pub read_link : Text → Option Text
  pub open_lower : Text → Option LowerFile
  pub read_dir : Text → Option (List Text)

-- A *Node that a lookup gives: of the upper layer, or made up for an entry of the lower one, which
-- nothing writes to.
pub data Ref : Type 0 where
  upper : ℕ → Ref
  synth : Inode → Ref

abbrev pub node_of : Ref → Memory → Inode
node_of (upper n) m = m.at n
node_of (synth i) m = i

abbrev pub in_upper : Text → Memory → Option ℕ
in_upper abs m = live (get (rel_name abs) m) m

abbrev pub whited : Option ℕ → Memory → Bool
whited none m = false
whited (some n) m = is_whiteout (m.at n).type

unfoldable pub upper_whiteout : Text → Memory → Bool
upper_whiteout abs m = whited (get (rel_name abs) m) m

abbrev pub or_no_text : Option Text → Text
or_no_text none = []
or_no_text (some t) = t

-- The names of the upper entries, whiteouts apart, and those of the whiteouts. Go lists a map in
-- any order; here it is the order of the list.
unfoldable pub shown_names : Memory → Children → List Text
shown_names m [] = []
shown_names m ((name, n) ∷ cs) =
    let rest = shown_names m cs in if is_whiteout (m.at n).type then rest else name ∷ rest

unfoldable pub white_names : Memory → Children → List Text
white_names m [] = []
white_names m ((name, n) ∷ cs) =
    let rest = white_names m cs in if is_whiteout (m.at n).type then name ∷ rest else rest

unfoldable pub has_name : Text → List Text → Bool
has_name name [] = false
has_name name (t ∷ ts) = bytes_eq t name || has_name name ts

unfoldable pub lower_names : List Text → List Text → List Text
lower_names hidden [] = []
lower_names hidden (t ∷ ts) =
    let rest = lower_names hidden ts in if has_name t hidden then rest else t ∷ rest

abbrev pub dir_children : Option ℕ → Memory → Children
dir_children none m = []
dir_children (some n) m = if is_directory (m.at n).type then (m.at n).children else []

abbrev pub or_no_names : Option (List Text) → List Text
or_no_names none = []
or_no_names (some ts) = ts

abbrev pub detach_found : Option ℕ → Memory → Memory
detach_found none m = m
detach_found (some n) m = detach n m

-- The lower layer may be nil.
module _ (lower : Option Lower) where
  abbrev pub lower_info : Text → Option Info
  lower_info abs = elim lower [ none ↦ none | some l ↦ l.lstat (rel_name abs) ]

  abbrev pub lower_has : Text → Bool
  lower_has abs = elim lower [ none ↦ false | some l ↦ l.has (rel_name abs) ]

  abbrev pub lower_link : Text → Text
  lower_link abs = elim lower [ none ↦ [] | some l ↦ or_no_text (l.read_link (rel_name abs)) ]

  unfoldable pub synth_node : Text → Info → Inode
  synth_node abs info =
      if info.symlink_bit
      then record (new_node symlink info.perm) { name = base abs; target = lower_link abs }
      else if info.dir_bit
      then record (new_node directory info.perm) { name = base abs }
      else record (new_node regular info.perm) { name = base abs; data_size = info.bytes_size }

  abbrev pub from_lower : Text → Option Info → Option Ref
  from_lower abs none = none
  from_lower abs (some info) = some (synth (synth_node abs info))

  abbrev pub stat_found : Text → Option ℕ → Memory → Option Ref
  stat_found abs (some n) m = some (upper n)
  stat_found abs none m = if upper_whiteout abs m then none else from_lower abs (lower_info abs)

  -- statNode
  unfoldable pub stat_node : Text → Memory → Option Ref
  stat_node abs m = stat_found abs (in_upper abs m) m

  -- Where a symbolic link found at `next` leads.
  abbrev pub link_target : Text → Text → Text
  link_target cur target = if is_abs target then target else join cur target

  -- One component: what it is, with a link followed by `ev` unless it is the last one and stays.
  abbrev pub eval_part :
      (Text → Option (Ref × Text)) → Memory → Bool → Text → Text → Option Ref → Option (Ref × Text)
  eval_part ev m follow cur next none = none
  eval_part ev m follow cur next (some r) =
      if is_symlink (node_of r m).type && follow
      then ev (link_target cur (node_of r m).target)
      else some (r, next)

  -- The loop of `eval` over the components; `ev` is the call one level deeper.
  unfoldable pub eval_loop :
      (Text → Option (Ref × Text))
      → Memory
      → Bool
      → List Text
      → Text
      → Option Ref
      → Option (Option Ref × Text)
  eval_loop ev m follow [] cur node = some (node, cur)
  eval_loop ev m follow (part ∷ parts) cur node =
      if is_empty part
      then eval_loop ev m follow parts cur node
      else elim (eval_part ev m (follow || not (is_nil parts)) cur (cur ++ (b'/' ∷ part))
          (stat_node (cur ++ (b'/' ∷ part)) m)) [
            | none ↦ none
            | some r ↦ eval_loop ev m follow parts r.1 (some r.0)
          ]

  abbrev pub with_path : Text → Option Ref → Option (Ref × Text)
  with_path abs none = none
  with_path abs (some r) = some (r, abs)

  abbrev pub eval_end : Memory → Option (Option Ref × Text) → Option (Ref × Text)
  eval_end m none = none
  eval_end m (some (some r, cur)) = some (r, cur)
  eval_end m (some (none, cur)) = with_path (b'/' ∷ []) (stat_node (b'/' ∷ []) m)

  -- `eval` at depth 41 - fuel: a chain of more than 40 links is not followed.
  unfoldable pub eval : ℕ → Memory → Bool → Text → Option (Ref × Text)
  eval zero m follow p = none
  eval (suc fuel) m follow p =
      let abs = clean p in
      let ev = eval fuel m true in
      if bytes_eq abs (b'/' ∷ [])
      then with_path abs (stat_node abs m)
      else eval_end m (eval_loop ev m follow (split_slash (trim_prefix abs)) [] none)

  -- v.eval(abs, followFinal, 0)
  abbrev pub look : Memory → Bool → Text → Option (Ref × Text)
  look m follow abs = eval 41 m follow abs

  abbrev pub read_opened : ℕ → Option LowerFile → Outcome (List ℕ)
  read_opened n none = err not_exist
  read_opened n (some f) = elim (f.read_full n) [ none ↦ err read_failed | some bs ↦ ok bs ]

  -- readLowerAll; without a lower layer the method call on a nil interface panics.
  unfoldable pub read_lower_all : Text → ℕ → Outcome (List ℕ)
  read_lower_all abs n = elim lower [
    | none ↦ panic
    | some l ↦ read_opened n (l.open_lower (rel_name abs))
  ]

  -- The node that `copyUp` makes, its bytes apart.
  abbrev pub copied : Inode → Inode
  copied i = record (new_node i.type i.mode) { target = if is_symlink i.type then i.target else [] }

  abbrev pub place_read : Text → ℕ → Inode → Outcome (List ℕ) → Act Memory ℕ
  place_read abs n i (ok bs) m =
      place_new (rel_name abs)
        (record i { bytes = some (record { content = bs; spare = replicate (n - length bs) 0 }) }) m
  place_read abs n i (err e) m = (err e, m)
  place_read abs n i panic m = (panic, m)
  place_read abs n i Outcome.stuck m = (Outcome.stuck, m)

  abbrev pub copy_new : Text → Inode → Bool → Act Memory ℕ
  copy_new abs i empty m =
      if is_directory i.type || is_symlink i.type || empty
      then place_new (rel_name abs) (copied i) m
      else place_read abs (size i) (copied i) (read_lower_all abs (size i)) m

  abbrev pub copy_missing : Text → Ref → Bool → Option ℕ → Act Memory ℕ
  copy_missing abs r empty (some n) m = (ok n, m)
  copy_missing abs r empty none m = copy_new abs (node_of r m) empty m

  unfoldable pub copy_up : Text → Ref → Bool → Act Memory ℕ
  copy_up abs r empty m = copy_missing abs r empty (in_upper abs m) m

  abbrev pub lower_entries : Text → List Text
  lower_entries abs = elim lower [ none ↦ [] | some l ↦ or_no_names (l.read_dir (rel_name abs)) ]

  unfoldable pub readdir_names : Text → Memory → List Text
  readdir_names abs m =
      let cs = dir_children (in_upper abs m) m in
      let names = shown_names m cs in
      names ++ lower_names (names ++ white_names m cs) (lower_entries abs)

  -- The whiteout that hides a lower entry.
  unfoldable pub hide_lower : Text → Act Memory (Unit {0})
  hide_lower abs m =
      if lower_has abs
      then (do n ← place_new (rel_name abs) (new_node whiteout 0); λ m'. (ok tt, m')) m
      else (ok tt, m)

  unfoldable pub remove_child : Text → Act Memory (Unit {0})
  remove_child abs m = hide_lower abs (detach_found (in_upper abs m) m)
