-- ===== src/Runs/Install.antt =====
-- A bundle of two files.
use pglite_go.Base.{ℕ, ◌-◌, ◌≡◌, refl, List, [], ◌∷◌, length, some, codes, bytes_eq}
use pglite_go.Base.Outcome.{Outcome, ok, err, panic, stuck, ◌>>=◌}
use pglite_go.Wire.Bytes.{pos}
use pglite_go.Wire.Session.{contains, has_prefix}
use pglite_go.Vfs.Path.{clean, clean_up, clean_parts, split_slash, join_slash}
use pglite_go.Bundle.{
  Entry, Bundle, empty_bundle, load_bundle, add_entries, insert, insert_loop, named, without,
  has_suffix,
}
use pglite_go.Bundle.Handles.{file_bytes, open_bundle, bundle_file}
use pglite_go.Bundle.Bounds.{load_bundle-file_bytes}

abbrev manifest : List Entry
manifest =
    record { filename = codes "/lib/a.so"; start = pos 0; end = pos 2 }
    ∷ record { filename = codes "/lib/b"; start = pos 2; end = pos 5 }
    ∷ []

abbrev or_empty : Outcome Bundle → Bundle
or_empty (ok b) = b
or_empty (err e) = empty_bundle []
or_empty panic = empty_bundle []
or_empty stuck = empty_bundle []

abbrev loaded : Bundle
loaded = or_empty (load_bundle (some manifest) (some (codes "xyabc")))

manifest_loads : load_bundle (some manifest) (some (codes "xyabc")) ≡ ok loaded
unfolding load_bundle empty_bundle add_entries insert insert_loop named without has_suffix contains
    has_prefix bytes_eq clean clean_up clean_parts split_slash join_slash
manifest_loads = refl

second_opens : (open_bundle loaded (codes "lib/b") >>= λ o. ok o) ≡ ok (bundle_file 3 (pos 0))
unfolding open_bundle load_bundle empty_bundle add_entries insert insert_loop named without
    has_suffix contains has_prefix bytes_eq clean clean_up clean_parts split_slash join_slash
second_opens = refl

load_bundle-file_bytes_example :
    (got : List ℕ) × (file_bytes loaded 3 ≡ ok got)
    × (length got ≡ (loaded.at 3).end - (loaded.at 3).start)
load_bundle-file_bytes_example =
    load_bundle-file_bytes manifest (codes "xyabc") loaded 3 manifest_loads
