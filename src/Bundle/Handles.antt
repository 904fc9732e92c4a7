-- ===== src/Bundle/Handles.antt =====
-- Lookups and handles of the bundle, bundlefs.go.
use pglite_go.Base.{
  ℕ, zero, suc, ◌+◌, ◌-◌, ◌&&◌, Option, none, some, List, [], ◌∷◌, length, take, drop, leb, ltb,
  if◌then◌else◌,
}
use pglite_go.Base.Outcome.{Outcome, ok, err, panic, not_exist, end_of_file, ◌>>=◌ as ◌>>=ᵒ◌}
use pglite_go.Wire.Bytes.{ℤ, pos, negsuc}
use pglite_go.Vfs.Path.{Text}
use pglite_go.Vfs.File.{Fault, negative_offset, invalid_whence, permission, read_at, add_int}
use pglite_go.Bundle.{Children, BundleNode, Bundle, named}

-- An opened node: a directory, or a file at its beginning.
pub data Opened : Type 0 where
  bundle_file : ℕ → ℤ → Opened
  bundle_dir : ℕ → Option (List Text) → ℕ → Opened

abbrev pub opened : Bundle → Option ℕ → Outcome Opened
opened b none = err not_exist
opened b (some n) = ok (if (b.at n).is_dir then bundle_dir n none 0 else bundle_file n (pos 0))

unfoldable pub open_bundle : Bundle → Text → Outcome Opened
open_bundle b name = opened b (named name b.names)

abbrev pub found : Option ℕ → Outcome ℕ
found none = err not_exist
found (some n) = ok n

-- Stat: the node behind the bundleInfo.
unfoldable pub stat_bundle : Bundle → Text → Outcome ℕ
stat_bundle b name = found (named name b.names)

-- bundleInfo.Size
unfoldable pub info_size : BundleNode → ℕ
info_size n = if n.is_dir then 0 else n.end - n.start

abbrev pub child_names : Children → List Text
child_names [] = []
child_names ((k, n) ∷ cs) = k ∷ child_names cs

abbrev pub names_of : Option Children → List Text
names_of none = []
names_of (some cs) = child_names cs

abbrev pub dir_entries : Bundle → Option ℕ → Outcome (List Text)
dir_entries b none = err not_exist
dir_entries b (some n) = if (b.at n).is_dir then ok (names_of (b.at n).children) else err not_exist

unfoldable pub read_dir_bundle : Bundle → Text → Outcome (List Text)
read_dir_bundle b name = dir_entries b (named name b.names)

-- bundleFile.bytes: f.fs.data[start:end], of a blob without capacity behind its bytes
unfoldable pub file_bytes : Bundle → ℕ → Outcome (List ℕ)
file_bytes b n =
    if leb (b.at n).start (b.at n).end && leb (b.at n).end (length b.bytes)
    then ok (take ((b.at n).end - (b.at n).start) (drop (b.at n).start b.bytes))
    else panic

unfoldable pub file_read_at : Bundle → ℕ → ℕ → ℤ → Outcome (List ℕ × Option Fault)
file_read_at b n size off = file_bytes b n >>=ᵒ λ bytes. ok (read_at bytes size off)

unfoldable pub file_write_at : List ℕ → ℤ → ℕ × Option Fault
file_write_at p off = (0, some permission)

-- Read moves the offset by the bytes that it got.
unfoldable pub file_read : Bundle → ℕ → ℤ → ℕ → Outcome ((List ℕ × Option Fault) × ℤ)
file_read b n off size = file_read_at b n size off >>=ᵒ λ r. ok (r, add_int off (pos (length r.0)))

abbrev pub sought : ℤ → ℤ → Outcome ((ℤ × Option Fault) × ℤ)
sought off (pos a) = ok ((pos a, none), pos a)
sought off (negsuc a) = ok ((pos 0, some negative_offset), off)

unfoldable pub file_seek : Bundle → ℕ → ℤ → ℤ → ℕ → Outcome ((ℤ × Option Fault) × ℤ)
file_seek b n off offset zero = sought off offset
file_seek b n off offset (suc zero) = sought off (add_int off offset)
file_seek b n off offset (suc (suc zero)) =
    file_bytes b n >>=ᵒ λ bytes. sought off (add_int (pos (length bytes)) offset)
file_seek b n off offset (suc (suc (suc w))) = ok ((pos 0, some invalid_whence), off)

abbrev pub or_listed : List Text → Option (List Text) → List Text
or_listed listed none = listed
or_listed listed (some es) = es

-- bundleDir.ReadDir with a limit of n names, and of all that are left: the names, whether the end
-- was met, and the new position.
unfoldable pub dir_read :
    Bundle → ℕ → Option (List Text) → ℕ → ℤ → Outcome (List Text × (List Text × ℕ))
dir_read b n entries at (negsuc k) =
    let es = or_listed (names_of (b.at n).children) entries in ok (drop at es, (es, length es))
dir_read b n entries at (pos zero) =
    let es = or_listed (names_of (b.at n).children) entries in ok (drop at es, (es, length es))
dir_read b n entries at (pos (suc k)) =
    let es = or_listed (names_of (b.at n).children) entries in
    if leb (length es) at
    then err end_of_file
    else ok (
      take (suc k) (drop at es),
      (es, (if ltb (length es) (at + suc k) then length es else at + suc k)),
    )
