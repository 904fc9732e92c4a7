-- ===== src/Vfs/Path.antt =====
-- Paths as vfs/vfs.go and vfs/memfs.go take them apart: strings.Split and strings.Trim at '/',
-- path.Clean, path.Join, path.Base and path.IsAbs of Go's standard library, and `resolve`, `relName`
-- and `splitName`.
pub mod Canonical
use pglite_go.Base.{
  ℕ, Bool, true, false, not, ◌&&◌, ◌||◌, List, [], ◌∷◌, ◌++◌, ◌==◌, if◌then◌else◌, bytes_eq, codes,
}

abbrev pub Text : Type 0
Text = List ℕ

abbrev pub dot : Text
dot = b'.' ∷ []

abbrev pub dots : Text
dots = b'.' ∷ b'.' ∷ []

abbrev cons_first : ℕ → List Text → List Text
cons_first c [] = (c ∷ []) ∷ []
cons_first c (t ∷ ts) = (c ∷ t) ∷ ts

-- strings.Split(s, "/")
unfoldable pub split_slash : Text → List Text
split_slash [] = [] ∷ []
split_slash (c ∷ s) = let rest = split_slash s in if c == b'/' then [] ∷ rest else cons_first c rest

-- strings.Join(parts, "/")
unfoldable pub join_slash : List Text → Text
join_slash [] = []
join_slash (t ∷ []) = t
join_slash (t ∷ u ∷ ts) = t ++ (b'/' ∷ join_slash (u ∷ ts))

-- path.IsAbs
abbrev pub is_abs : Text → Bool
is_abs [] = false
is_abs (c ∷ s) = c == b'/'

abbrev pub is_empty : Text → Bool
is_empty [] = true
is_empty (c ∷ s) = false

-- The elements that path.Clean keeps, the last one first; `..` takes the one before it away.
unfoldable pub clean_up : Bool → List Text → List Text
clean_up rooted [] = if rooted then [] else dots ∷ []
clean_up rooted (t ∷ ts) = if bytes_eq t dots then dots ∷ t ∷ ts else ts

unfoldable pub clean_parts : Bool → List Text → List Text → List Text
clean_parts rooted kept [] = kept
clean_parts rooted kept (t ∷ ts) =
    clean_parts rooted
      (if is_empty t || bytes_eq t dot
        then kept
        else if bytes_eq t dots
        then clean_up rooted kept
        else t ∷ kept)
      ts

abbrev pub reverse_onto : List Text → List Text → List Text
reverse_onto [] out = out
reverse_onto (t ∷ ts) out = reverse_onto ts (t ∷ out)

abbrev pub as_path : Bool → Text → Text
as_path true s = b'/' ∷ s
as_path false [] = dot
as_path false (c ∷ s) = c ∷ s

-- path.Clean
unfoldable pub clean : Text → Text
clean p =
    as_path (is_abs p) (join_slash (reverse_onto (clean_parts (is_abs p) [] (split_slash p)) []))

-- path.Join of two elements.
unfoldable pub join : Text → Text → Text
join [] [] = []
join [] (c ∷ s) = clean (c ∷ s)
join (c ∷ s) [] = clean (c ∷ s)
join (c ∷ s) (d ∷ t) = clean ((c ∷ s) ++ (b'/' ∷ d ∷ t))

-- strings.TrimPrefix(s, "/")
abbrev pub trim_prefix : Text → Text
trim_prefix [] = []
trim_prefix (c ∷ s) = if c == b'/' then s else c ∷ s

-- strings.Trim(s, "/")
unfoldable pub trim_left : Text → Text
trim_left [] = []
trim_left (c ∷ s) = let rest = trim_left s in if c == b'/' then rest else c ∷ s

unfoldable pub trim_right : Text → Text
trim_right [] = []
trim_right (c ∷ s) = let rest = trim_right s in if is_empty rest && c == b'/' then [] else c ∷ rest

abbrev last_or : Text → List Text → Text
last_or t [] = t
last_or t (u ∷ us) = last_or u us

abbrev base_name : Text → Text
base_name [] = b'/' ∷ []
base_name (c ∷ s) = last_or [] (split_slash (c ∷ s))

-- path.Base
unfoldable pub base : Text → Text
base [] = dot
base (c ∷ s) = base_name (trim_right (c ∷ s))

-- FS.resolve, at a working directory.
unfoldable pub resolve : Text → Text → Text
resolve cwd p = clean (if is_abs p then p else join cwd p)

abbrev pub or_dot : Text → Text
or_dot [] = dot
or_dot (c ∷ s) = c ∷ s

unfoldable pub rel_name : Text → Text
rel_name abs = or_dot (trim_prefix (clean abs))

unfoldable pub keep_names : List Text → List Text
keep_names [] = []
keep_names (t ∷ ts) =
    let rest = keep_names ts in if is_empty t || bytes_eq t dot then rest else t ∷ rest

abbrev is_root_name : Text → Bool
is_root_name s = bytes_eq s dot || is_empty s || bytes_eq s (b'/' ∷ [])

-- splitName
unfoldable pub split_name : Text → List Text
split_name s = if is_root_name s then [] else keep_names (split_slash (trim_right (trim_left s)))

-- pathBase
unfoldable pub path_base : Text → Text
path_base s = elim (split_name s) [ [] ↦ dot | t ∷ ts ↦ last_or t ts ]
