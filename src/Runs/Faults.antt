-- ===== src/Runs/Faults.antt =====
-- Runs of Unlink and Rename that lose or keep what they should not.
use pglite_go.Base.{
  ◌≡◌, refl, ◌||◌, Bool, true, false, Option, none, some, [], ◌∷◌, bytes_eq, codes, if◌then◌else◌,
}
use pglite_go.Base.Outcome.{Outcome, ok, err, not_directory}
use pglite_go.Vfs.Path.{
  Text, rel_name, resolve, clean, clean_up, clean_parts, join, base, split_name, split_slash,
  join_slash, keep_names, trim_right, trim_left,
}
use pglite_go.Vfs.Memory.{
  get, walk, place_new, place, mkdir_all, mkdir_loop, enter, erase, find, size,
}
use pglite_go.Vfs.Overlay.{
  Lower, Ref, upper, look, eval, eval_loop, stat_node, upper_whiteout, synth_node, copy_up,
  hide_lower, remove_child, read_lower_all, readdir_names, shown_names, white_names, lower_names,
  has_name,
}
use pglite_go.Vfs.System.{Fs, new_fs}
use pglite_go.Vfs.Paths.{mkdir_all_at, rmdir, write_file, symlink_at, unlink_at, rename, move}

-- /l leads to /d, which holds f.
abbrev linked : Fs
linked =
    (symlink_at (codes "/d") (codes "/l") (write_file (codes "/d/f") (codes "x") 0o600 new_fs).1).1

-- The file is still found behind an Unlink through the link that succeeds.
unlink_through_link :
    ((unlink_at none (codes "/l/f") linked).0 ≡ ok tt)
    × (look none (unlink_at none (codes "/l/f") linked).1.mem true (codes "/l/f")
        ≡ some (upper 1, codes "/d/f"))
unfolding write_file symlink_at unlink_at rename move bytes_eq rel_name resolve clean clean_up
    clean_parts join base split_name split_slash join_slash keep_names trim_right trim_left get walk
    place_new place mkdir_all mkdir_loop enter erase find size eval eval_loop stat_node
    upper_whiteout synth_node copy_up hide_lower remove_child read_lower_all
unlink_through_link = (refl, refl)

-- A directory of the lower layer with one file.
abbrev below : Lower
below = record {
  lstat = λ t.
      if bytes_eq t (codes "d")
      then some (record { symlink_bit = false; dir_bit = true; perm = 0o755; bytes_size = 0 })
      else if bytes_eq t (codes "d/f")
      then some (record { symlink_bit = false; dir_bit = false; perm = 0o644; bytes_size = 1 })
      else none;
  has = λ t. bytes_eq t (codes "d") || bytes_eq t (codes "d/f");
  read_link = λ t. none;
  open_lower = λ t. none;
  read_dir = λ t. if bytes_eq t (codes "d") then some (codes "f" ∷ []) else none;
}

abbrev renamed : Outcome (Unit {0}) × Fs
renamed = rename (some below) (codes "/d") (codes "/e") new_fs

-- The file is found neither at the old path nor at the new one.
rename_lower_directory :
    (renamed.0 ≡ ok tt)
    × (look (some below) renamed.1.mem true (codes "/e/f") ≡ none)
    × (look (some below) renamed.1.mem true (codes "/d/f") ≡ none)
unfolding write_file symlink_at unlink_at rename move bytes_eq rel_name resolve clean clean_up
    clean_parts join base split_name split_slash join_slash keep_names trim_right trim_left get walk
    place_new place mkdir_all mkdir_loop enter erase find size eval eval_loop stat_node
    upper_whiteout synth_node copy_up hide_lower remove_child read_lower_all
rename_lower_directory = (refl, refl, refl)

-- /g is a regular file, so /g/f cannot be placed; /d/f is gone as well.
abbrev blocked : Outcome (Unit {0}) × Fs
blocked =
    rename none (codes "/d/f") (codes "/g/f") (write_file (codes "/g") (codes "y") 0o600 linked).1

rename_fails :
    (blocked.0 ≡ err not_directory) × (look none blocked.1.mem true (codes "/d/f") ≡ none)
unfolding write_file symlink_at unlink_at rename move bytes_eq rel_name resolve clean clean_up
    clean_parts join base split_name split_slash join_slash keep_names trim_right trim_left get walk
    place_new place mkdir_all mkdir_loop enter erase find size eval eval_loop stat_node
    upper_whiteout synth_node copy_up hide_lower remove_child read_lower_all
rename_fails = (refl, refl)

-- After Unlink of /d/f, Rmdir of /d and MkdirAll of /d, which all succeed, /d/f is there again.
abbrev emptied : Outcome (Unit {0}) × Fs
emptied = unlink_at (some below) (codes "/d/f") new_fs

abbrev dropped : Outcome (Unit {0}) × Fs
dropped = rmdir (some below) (codes "/d") emptied.1

abbrev remade : Outcome (Unit {0}) × Fs
remade = mkdir_all_at (codes "/d") 0o700 dropped.1

abbrev seen : Option (Ref × Text) → Bool
seen none = false
seen (some r) = true

rmdir_mkdir_shows :
    (emptied.0 ≡ ok tt)
    × (dropped.0 ≡ ok tt)
    × (remade.0 ≡ ok tt)
    × (seen (look (some below) dropped.1.mem true (codes "/d/f")) ≡ false)
    × (seen (look (some below) remade.1.mem true (codes "/d/f")) ≡ true)
unfolding write_file symlink_at unlink_at rename move bytes_eq rel_name resolve clean clean_up
    clean_parts join base split_name split_slash join_slash keep_names trim_right trim_left get walk
    place_new place mkdir_all mkdir_loop enter erase find size eval eval_loop stat_node
    upper_whiteout synth_node copy_up hide_lower remove_child read_lower_all mkdir_all_at rmdir
    readdir_names shown_names white_names lower_names has_name
rmdir_mkdir_shows = (refl, refl, refl, refl, refl)
