-- ===== src/Runs/Overlay.antt =====
-- Calls on a small file system.
use pglite_go.Base.{
  ℕ, ◌≡◌, refl, sym, ◌∙◌, true, false, none, some, [], ◌∷◌, codes, bytes_eq, if◌then◌else◌, arith,
  All,
}
use pglite_go.Base.Outcome.{ok}
use pglite_go.Base.Action.{Ends}
use pglite_go.Wire.Bytes.{pos}
use pglite_go.Vfs.Path.{
  Text, split_name, join_slash, rel_name, clean, clean_up, clean_parts, resolve, join, base,
  split_slash, keep_names, trim_right, trim_left,
}
use pglite_go.Vfs.Path.Canonical.{HasNoSlash, AreNames, split_name-join_slash}
use pglite_go.Vfs.Memory.{
  is_directory, get, walk, place_new, place, mkdir_all, mkdir_loop, enter, erase, find,
}
use pglite_go.Vfs.Overlay.{
  Lower, upper, in_upper, stat_node, look, lower_has, eval, eval_loop, upper_whiteout, synth_node,
  remove_child, hide_lower,
}
use pglite_go.Vfs.System.{Fs, OpenFile, fd_get, new_fs, mem_handle}
use pglite_go.Vfs.Paths.{at_cwd, write_file, mkdir_all_at, open_at, unlink_at, rename}
use pglite_go.Vfs.Descriptors.{pread, pwrite, dup}
use pglite_go.Vfs.Table.{SameTable, NewFd, open_at-NewFd, dup-NewFd}
use pglite_go.Vfs.Tree.{IsTree, IsLoose}
use pglite_go.Vfs.Tree.Kept.{Kept}
use pglite_go.Vfs.Tree.Reach.{
  Reached, start, after, step_write_file, step_unlink, reached-IsTree, get_one_path,
}
use pglite_go.Vfs.Visible.{write_file-stat_node, mkdir_all_at-get}
use pglite_go.Vfs.Unlinked.{IsDown, HasNoLink, unlink_at-look}
use pglite_go.Vfs.Moved.{rename-moves}
use pglite_go.Vfs.Shared.{pread-pwrite}

abbrev conf : Text
conf = codes "/base/conf"

abbrev moved : Text
moved = codes "/base/old/conf"

-- A layer below with one file.
abbrev install : Lower
install = record {
  lstat = λ t.
      if bytes_eq t (codes "base/conf")
      then some (record { symlink_bit = false; dir_bit = false; perm = 0o644; bytes_size = 4 })
      else none;
  has = λ t. bytes_eq t (codes "base/conf");
  read_link = λ t. none;
  open_lower = λ t. none;
  read_dir = λ t. none;
}

abbrev with_conf : Fs
with_conf = (write_file conf (codes "port") 0o600 new_fs).1

abbrev conf_written : Reached (some install) with_conf
conf_written = after start (step_write_file conf (codes "port") 0o600 new_fs)

conf_parts : split_name (rel_name (at_cwd with_conf conf)) ≡ codes "base" ∷ codes "conf" ∷ []
unfolding eval eval_loop stat_node upper_whiteout synth_node bytes_eq clean clean_up clean_parts
    resolve join base join_slash split_slash get walk split_name rel_name keep_names trim_right
    trim_left write_file place_new place mkdir_all mkdir_loop enter erase find
conf_parts = refl

conf_held : lower_has (some install) (at_cwd with_conf conf) ≡ true
unfolding eval eval_loop stat_node upper_whiteout synth_node bytes_eq clean clean_up clean_parts
    resolve join base join_slash split_slash get walk split_name rel_name keep_names trim_right
    trim_left write_file place_new place mkdir_all mkdir_loop enter erase find
conf_held = refl

conf_found : get (codes "base/conf") with_conf.mem ≡ some 1
unfolding eval eval_loop stat_node upper_whiteout synth_node bytes_eq clean clean_up clean_parts
    resolve join base join_slash split_slash get walk split_name rel_name keep_names trim_right
    trim_left write_file place_new place mkdir_all mkdir_loop enter erase find
conf_found = refl

conf_again : get (codes "/base//conf") with_conf.mem ≡ some 1
unfolding eval eval_loop stat_node upper_whiteout synth_node bytes_eq clean clean_up clean_parts
    resolve join base join_slash split_slash get walk split_name rel_name keep_names trim_right
    trim_left write_file place_new place mkdir_all mkdir_loop enter erase find
conf_again = refl

conf_seen : look (some install) with_conf.mem false (at_cwd with_conf conf) ≡ some (upper 1, conf)
unfolding eval eval_loop stat_node upper_whiteout synth_node bytes_eq clean clean_up clean_parts
    resolve join base join_slash split_slash get walk split_name rel_name keep_names trim_right
    trim_left write_file place_new place mkdir_all mkdir_loop enter erase find
conf_seen = refl

conf_upper : in_upper (at_cwd with_conf conf) with_conf.mem ≡ some 1
unfolding eval eval_loop stat_node upper_whiteout synth_node bytes_eq clean clean_up clean_parts
    resolve join base join_slash split_slash get walk split_name rel_name keep_names trim_right
    trim_left write_file place_new place mkdir_all mkdir_loop enter erase find
conf_upper = refl

reached-IsTree_example : IsTree (unlink_at (some install) conf with_conf).1.mem
reached-IsTree_example =
    reached-IsTree (some install) (after conf_written (step_unlink conf with_conf))

get_one_path_example : split_name (codes "base/conf") ≡ split_name (codes "/base//conf")
get_one_path_example =
    get_one_path (some install) (codes "base/conf") (codes "/base//conf") 1 conf_written conf_found
      conf_again

split_name-join_slash_example :
    split_name (join_slash (codes "base" ∷ codes "conf" ∷ [])) ≡ codes "base" ∷ codes "conf" ∷ []
unfolding AreNames HasNoSlash bytes_eq
split_name-join_slash_example = split_name-join_slash (codes "base" ∷ codes "conf" ∷ []) (
  (refl, refl, (refl, (refl, (refl, (refl, tt))))),
  ((refl, refl, (refl, (refl, (refl, (refl, tt))))), tt),
)

write_file-stat_node_example :
    Ends
      (λ w. Kept new_fs.mem w.mem)
      (λ u w.
        (n : ℕ) × (stat_node (some install) (at_cwd new_fs conf) w.mem ≡ some (upper n))
        × ((w.mem.at n).bytes ≡ some (record { content = codes "port"; spare = [] })))
      (write_file conf (codes "port") 0o600 new_fs)
write_file-stat_node_example =
    write_file-stat_node (some install) conf (codes "port") 0o600 new_fs start

mkdir_all_at-get_example :
    Ends
      (λ w. Kept with_conf.mem w.mem)
      (λ u w.
        Kept with_conf.mem w.mem
        × ((d : ℕ) × (get (rel_name (at_cwd with_conf (codes "/base/pg/x"))) w.mem ≡ some d)
            × (is_directory (w.mem.at d).type ≡ true)))
      (mkdir_all_at (codes "/base/pg/x") 0o700 with_conf)
mkdir_all_at-get_example =
    mkdir_all_at-get (some install) (codes "/base/pg/x") 0o700 with_conf conf_written

abbrev unlinked : Fs
unlinked = (unlink_at (some install) conf with_conf).1

conf-unlinked : unlink_at (some install) conf with_conf ≡ (ok tt, unlinked)
unfolding eval eval_loop stat_node upper_whiteout synth_node bytes_eq clean clean_up clean_parts
    resolve join base join_slash split_slash get walk split_name rel_name keep_names trim_right
    trim_left write_file place_new place mkdir_all mkdir_loop enter erase find unlink_at
    remove_child hide_lower
conf-unlinked = refl

conf_at : at_cwd with_conf conf ≡ b'/' ∷ join_slash (codes "base" ∷ codes "conf" ∷ [])
unfolding eval eval_loop stat_node upper_whiteout synth_node bytes_eq clean clean_up clean_parts
    resolve join base join_slash split_slash get walk split_name rel_name keep_names trim_right
    trim_left write_file place_new place mkdir_all mkdir_loop enter erase find unlink_at
    remove_child hide_lower
conf_at = refl

conf_HasNoLink : HasNoLink (some install) unlinked.mem [] (codes "base" ∷ codes "conf" ∷ [])
unfolding eval eval_loop stat_node upper_whiteout synth_node bytes_eq clean clean_up clean_parts
    resolve join base join_slash split_slash get walk split_name rel_name keep_names trim_right
    trim_left write_file place_new place mkdir_all mkdir_loop enter erase find unlink_at
    remove_child hide_lower HasNoLink
conf_HasNoLink = (refl, tt)

conf_AreNames : AreNames (codes "base" ∷ codes "conf" ∷ [])
unfolding AreNames HasNoSlash bytes_eq
conf_AreNames = (
  (refl, refl, (refl, (refl, (refl, (refl, tt))))),
  ((refl, refl, (refl, (refl, (refl, (refl, tt))))), tt),
)

conf_IsDown : All IsDown (codes "base" ∷ codes "conf" ∷ [])
unfolding bytes_eq
conf_IsDown = (refl, (refl, tt))

unlink_at-look_example : look (some install) unlinked.mem true (at_cwd with_conf conf) ≡ none
unlink_at-look_example =
    unlink_at-look (some install) conf (codes "base") (codes "conf" ∷ []) with_conf unlinked true
      conf_written conf_at conf_AreNames conf_IsDown (λ e. absurd (cc (sym conf_held ∙ e)))
      conf-unlinked conf_HasNoLink

rename-moves_example :
    Ends
      (λ w. IsLoose w.mem 1)
      (λ u w.
        (stat_node (some install) (at_cwd with_conf moved) w.mem ≡ some (upper 1))
        × ((w.mem.at 1).bytes ≡ (with_conf.mem.at 1).bytes))
      (rename (some install) conf moved with_conf)
rename-moves_example =
    rename-moves (some install) conf moved with_conf (upper 1) conf 1 conf_written conf_seen
      conf_upper

open_at-NewFd_example :
    Ends
      (SameTable with_conf)
      (NewFd with_conf (λ of. of.flags ≡ 2))
      (open_at (some install) conf 2 0 with_conf)
open_at-NewFd_example = open_at-NewFd (some install) conf 2 0 with_conf

abbrev file : OpenFile
file = record {
  handle = some (mem_handle 1);
  node = some (upper 1);
  offset = pos 2;
  flags = 2;
  path = conf;
}

-- Two descriptors of one node.
abbrev opened : Fs
opened = record with_conf { fds = (3, file) ∷ (4, file) ∷ []; next_fd = 5 }

dup-NewFd_example :
    (w : Fs) × (dup 3 opened ≡ (ok 5, w)) × NewFd opened (λ f. f ≡ file) 5 w × (w.mem ≡ opened.mem)
unfolding fd_get
dup-NewFd_example = dup-NewFd 3 file opened refl

pread-pwrite_example :
    (w : Fs) × (pwrite 3 (codes "max") (pos 9) opened ≡ (ok 3, w))
    × (pread 4 3 (pos 9) w ≡ (ok (codes "max"), w))
unfolding fd_get
pread-pwrite_example =
    pread-pwrite opened 3 4 1 9 file file (codes "max") refl refl refl refl (omega arith)
      (omega arith)
