-- ===== src/Vfs/Path/Canonical.antt =====
-- The names that splitName of vfs/memfs.go gives, and their paths.
use pglite_go.Base.{
  ℕ, ◌≡◌, refl, sym, ◌∙◌, ap, Bool, true, false, ◌||◌, Bool-cases, inl, inr, List, [], ◌∷◌, ◌++◌,
  ◌==◌, bytes_eq, bytes_eq→eq, bytes_eq_refl,
}
use pglite_go.Vfs.Path.{
  Text, dot, cons_first, split_slash, join_slash, is_empty, trim_left, trim_right, keep_names,
  is_root_name, split_name,
}

unfoldable pub HasNoSlash : Text → Type 0
HasNoSlash [] = Unit {0}
HasNoSlash (c ∷ t) = ((c == b'/') ≡ false) × HasNoSlash t

-- A name of a directory's entry.
abbrev pub IsName : Text → Type 0
IsName t = (is_empty t ≡ false) × (bytes_eq t dot ≡ false) × HasNoSlash t

unfoldable pub AreNames : List Text → Type 0
AreNames [] = Unit {0}
AreNames (t ∷ ts) = IsName t × AreNames ts

AreSlashless : List Text → Type 0
AreSlashless [] = Unit {0}
AreSlashless (t ∷ ts) = HasNoSlash t × AreSlashless ts

cons_first-AreSlashless :
    (c : ℕ) (ts : List Text)
    → (c == b'/') ≡ false
    → AreSlashless ts
    → AreSlashless (cons_first c ts)
unfolding AreSlashless HasNoSlash
cons_first-AreSlashless c [] h hs = ((h, tt), tt)
cons_first-AreSlashless c (t ∷ ts) h (ht, hts) = ((h, ht), hts)

split_slash-AreSlashless : (s : Text) → AreSlashless (split_slash s)
unfolding split_slash AreSlashless HasNoSlash
split_slash-AreSlashless [] = (tt, tt)
split_slash-AreSlashless (c ∷ s) = elim (Bool-cases (c == b'/')) [
  | inl slash ↦ rw slash (tt, split_slash-AreSlashless s)
  | inr other ↦
      rw other (cons_first-AreSlashless c (split_slash s) other (split_slash-AreSlashless s))
]

or_false : (a b : Bool) → (a || b) ≡ false → (a ≡ false) × (b ≡ false)
or_false true b h = absurd (cc h)
or_false false b h = (refl, h)

keep_names-AreNames : (ts : List Text) → AreSlashless ts → AreNames (keep_names ts)
unfolding keep_names AreSlashless AreNames
keep_names-AreNames [] h = tt
keep_names-AreNames (t ∷ ts) (ht, hts) = elim (Bool-cases (is_empty t || bytes_eq t dot)) [
  | inl skip ↦ rw skip (keep_names-AreNames ts hts)
  | inr kept ↦
      let (full, named) = or_false (is_empty t) (bytes_eq t dot) kept in
      rw kept ((full, named, ht), keep_names-AreNames ts hts)
]

pub split_name-AreNames : (s : Text) → AreNames (split_name s)
unfolding split_name AreNames
split_name-AreNames s = elim (Bool-cases (is_root_name s)) [
  | inl top ↦ rw top tt
  | inr below ↦ rw below (
      keep_names-AreNames (split_slash (trim_right (trim_left s)))
        (split_slash-AreSlashless (trim_right (trim_left s))))
]

split_slash_end : (t : Text) → HasNoSlash t → split_slash t ≡ t ∷ []
unfolding split_slash HasNoSlash
split_slash_end [] h = refl
split_slash_end (c ∷ t) (h, hs) = rw (h, split_slash_end t hs) refl

split_slash_at : (t u : Text) → HasNoSlash t → split_slash (t ++ (b'/' ∷ u)) ≡ t ∷ split_slash u
unfolding split_slash HasNoSlash
split_slash_at [] u h = refl
split_slash_at (c ∷ t) u (h, hs) = rw (h, split_slash_at t u hs) refl

pub split_slash-join_slash :
    (t : Text) (ts : List Text) → AreNames (t ∷ ts) → split_slash (join_slash (t ∷ ts)) ≡ t ∷ ts
unfolding join_slash AreNames
split_slash-join_slash t [] ((full, named, h), hs) = split_slash_end t h
split_slash-join_slash t (u ∷ ts) ((full, named, h), hs) =
    split_slash_at t (join_slash (u ∷ ts)) h
    ∙ ap (λ rest. t ∷ rest) (split_slash-join_slash u ts hs)

trim_left_name : (t u : Text) → IsName t → trim_left (t ++ u) ≡ t ++ u
unfolding trim_left HasNoSlash
trim_left_name [] u (full, named, h) = absurd (cc full)
trim_left_name (c ∷ t) u (full, named, (h, hs)) = rw h refl

trim_left_alone : (t : Text) → IsName t → trim_left t ≡ t
unfolding trim_left HasNoSlash
trim_left_alone [] (full, named, h) = refl
trim_left_alone (c ∷ t) (full, named, (h, hs)) = rw h refl

trim_right_name : (t : Text) → HasNoSlash t → trim_right t ≡ t
unfolding trim_right HasNoSlash
trim_right_name [] h = refl
trim_right_name (c ∷ t) (h, hs) = elim (Bool-cases (is_empty t)) [
  | inl last ↦ rw (trim_right_name t hs, last, h) refl
  | inr more ↦ rw (trim_right_name t hs, more) refl
]

trim_right_append :
    (t u : Text) → is_empty u ≡ false → trim_right u ≡ u → trim_right (t ++ u) ≡ t ++ u
unfolding trim_right
trim_right_append [] u full h = h
trim_right_append (c ∷ t) u full h =
    let more : is_empty (t ++ u) ≡ false = longer t in rw (trim_right_append t u full h, more) refl
  where
    longer : (t : Text) → is_empty (t ++ u) ≡ false
    longer [] = full
    longer (d ∷ t) = refl

pub join_slash_full :
    (t : Text) (ts : List Text) → AreNames (t ∷ ts) → is_empty (join_slash (t ∷ ts)) ≡ false
unfolding join_slash AreNames
join_slash_full t [] ((full, named, h), hs) = full
join_slash_full [] (u ∷ ts) ((full, named, h), hs) = refl
join_slash_full (c ∷ t) (u ∷ ts) ((full, named, h), hs) = refl

trim_right-join_slash :
    (t : Text) (ts : List Text)
    → AreNames (t ∷ ts)
    → trim_right (join_slash (t ∷ ts)) ≡ join_slash (t ∷ ts)
unfolding join_slash AreNames trim_right
trim_right-join_slash t [] ((full, named, h), hs) = trim_right_name t h
trim_right-join_slash t (u ∷ ts) ((full, named, h), hs) =
    trim_right_append t (b'/' ∷ join_slash (u ∷ ts)) refl
      (rw (trim_right-join_slash u ts hs, join_slash_full u ts hs) refl)

trim_left-join_slash :
    (t : Text) (ts : List Text)
    → AreNames (t ∷ ts)
    → trim_left (join_slash (t ∷ ts)) ≡ join_slash (t ∷ ts)
unfolding join_slash AreNames
trim_left-join_slash t [] (h, hs) = trim_left_alone t h
trim_left-join_slash t (u ∷ ts) (h, hs) = trim_left_name t (b'/' ∷ join_slash (u ∷ ts)) h

-- A path of names is not one of the root's.
join_slash_below :
    (t : Text) (ts : List Text) → AreNames (t ∷ ts) → is_root_name (join_slash (t ∷ ts)) ≡ false
unfolding AreNames split_slash
join_slash_below t ts ((full, named, h), hs) =
    let j = join_slash (t ∷ ts) in
    let back = split_slash-join_slash t ts ((full, named, h), hs) in
    let not_dot : bytes_eq j dot ≡ false = elim (Bool-cases (bytes_eq j dot)) [
      | inr other ↦ other
      | inl same ↦
          let e : t ∷ ts ≡ dot ∷ [] = sym back ∙ ap split_slash (bytes_eq→eq j dot same) in
          let t_dot : t ≡ dot = cc e in
          absurd (cc (sym (bytes_eq_refl dot) ∙ (sym (ap (λ u. bytes_eq u dot) t_dot) ∙ named)))
    ] in
    let not_slash : bytes_eq j (b'/' ∷ []) ≡ false = elim (Bool-cases (bytes_eq j (b'/' ∷ []))) [
      | inr other ↦ other
      | inl same ↦
          let e : t ∷ ts ≡ [] ∷ [] ∷ [] =
            sym back ∙ ap split_slash (bytes_eq→eq j (b'/' ∷ []) same) in
          let t_empty : t ≡ [] = cc e in absurd (cc (sym (ap is_empty t_empty) ∙ full))
    ] in
    rw (not_dot, join_slash_full t ts ((full, named, h), hs), not_slash) refl

keep_names_all : (ts : List Text) → AreNames ts → keep_names ts ≡ ts
unfolding keep_names AreNames
keep_names_all [] h = refl
keep_names_all (t ∷ ts) ((full, named, h), hs) = rw (full, named, keep_names_all ts hs) refl

-- splitName takes a path apart into the names that were joined by slashes, for names that are
-- neither empty nor a dot and hold no slash.
pub split_name-join_slash : (ts : List Text) → AreNames ts → split_name (join_slash ts) ≡ ts
unfolding split_name bytes_eq join_slash
split_name-join_slash [] h = refl
split_name-join_slash (t ∷ ts) h =
    rw
      (
        join_slash_below t ts h,
        trim_left-join_slash t ts h,
        trim_right-join_slash t ts h,
        split_slash-join_slash t ts h,
        keep_names_all (t ∷ ts) h,
      )
      refl
