-- ===== src/Vfs/Tree/Found.antt =====
-- What `place` of vfs/memfs.go has entered is found under its path.
use pglite_go.Base.{
  ℕ, ◌<◌, ◌≡◌, ◌≢◌, refl, sym, ◌∙◌, ap, subst, true, false, Bool-cases, Option-cases, inl, inr,
  some, List, [], ◌∷◌, ◌==◌, arith,
}
use pglite_go.Base.Outcome.{ok}
use pglite_go.Base.Action.{Ends, Ends-continue, Ends-mono, Ends-both}
use pglite_go.Vfs.Path.{Text, split_name, join_slash}
use pglite_go.Vfs.Path.Canonical.{AreNames, split_name-AreNames, split_name-join_slash}
use pglite_go.Vfs.Memory.{
  Inode, Memory, root, is_directory, find, enter, set_node, alloc, attach, place, place_parts,
  place_new, mkdir_all, parts_front, parts_last, walk, get,
}
use pglite_go.Vfs.Tree.{IsTree, at_self, at_other, set_node-field}
use pglite_go.Vfs.Tree.Links.{alloc-IsTree}
use pglite_go.Vfs.Tree.Layer.{mkdir_all-Keeps}
use pglite_go.Vfs.Tree.Climb.{Climbs, walk-ne}
use pglite_go.Vfs.Tree.Kept.{Kept, Kept-refl, Kept-trans, alloc-Kept, find-enter_self}
use pglite_go.Vfs.Tree.Reaches.{Reaches, mkdir_all-Reaches}

-- Attaching changes the links of the directory alone.
attach_type :
    (dir : ℕ) (name : Text) (child n : ℕ) (m : Memory)
    → ((attach dir name child m).at n).type ≡ (m.at n).type
attach_type dir name child n m =
    let i : Inode = record (m.at child) { name = name; parent = some dir } in
    let s = set_node child i m in
    set_node-field (λ (j : Inode). j.type) dir n
      (record (s.at dir) { children = enter name child (s.at dir).children }) s refl
    ∙ set_node-field (λ (j : Inode). j.type) child n i m refl

attach_bytes :
    (dir : ℕ) (name : Text) (child n : ℕ) (m : Memory)
    → ((attach dir name child m).at n).bytes ≡ (m.at n).bytes
attach_bytes dir name child n m =
    let i : Inode = record (m.at child) { name = name; parent = some dir } in
    let s = set_node child i m in
    set_node-field (λ (j : Inode). j.bytes) dir n
      (record (s.at dir) { children = enter name child (s.at dir).children }) s refl
    ∙ set_node-field (λ (j : Inode). j.bytes) child n i m refl

attach_children :
    (dir : ℕ) (name : Text) (child n : ℕ) (m : Memory)
    → n ≢ dir
    → ((attach dir name child m).at n).children ≡ (m.at n).children
attach_children dir name child n m apart =
    let i : Inode = record (m.at child) { name = name; parent = some dir } in
    let s = set_node child i m in
    let other : (n == dir) ≡ false = ground (arith, apart) in
    ap (λ (j : Inode). j.children)
      (at_other dir n (record (s.at dir) { children = enter name child (s.at dir).children }) s
        other)
    ∙ set_node-field (λ (j : Inode). j.children) child n i m refl

attach_found :
    (dir : ℕ) (name : Text) (child : ℕ) (m : Memory)
    → find name ((attach dir name child m).at dir).children ≡ some child
attach_found dir name child m =
    let i : Inode = record (m.at child) { name = name; parent = some dir } in
    let s = set_node child i m in
    ap (λ (j : Inode). find name j.children)
      (at_self dir (record (s.at dir) { children = enter name child (s.at dir).children }) s)
    ∙ find-enter_self name child (s.at dir).children

-- The way to the directory stays.
walk-attach :
    (dir : ℕ) (name : Text) (child : ℕ) (m : Memory) (n : ℕ) (above parts : List Text)
    → IsTree m
    → Climbs m above n
    → walk m n parts ≡ some dir
    → walk (attach dir name child m) n parts ≡ some dir
unfolding walk Climbs
walk-attach dir name child m n above [] t up e = e
walk-attach dir name child m n above (p ∷ ps) t up e =
    let apart : n ≢ dir = walk-ne m n above p ps dir t up e in
    let typ = attach_type dir name child n m in
    let kids = attach_children dir name child n m apart in
    elim (Bool-cases (is_directory (m.at n).type)) [
      | inr file ↦ absurd (cc (rw file at e))
      | inl d ↦ elim (Option-cases (find p (m.at n).children)) [
        | inl gone ↦ absurd (cc (rw (d, gone) at e))
        | inr (k, at) ↦
            let rest =
              walk-attach dir name child m k (p ∷ above) ps t (n, at, up) (rw (d, at) at e) in
            rw (typ, d, kids, at) rest
      ]
    ]

-- One more name behind the way to a directory.
walk_last :
    (m : Memory) (n : ℕ) (t : Text) (ts : List Text) (d c : ℕ)
    → walk m n (parts_front t ts) ≡ some d
    → is_directory (m.at d).type ≡ true
    → find (parts_last t ts) (m.at d).children ≡ some c
    → walk m n (t ∷ ts) ≡ some c
unfolding walk
walk_last m n t [] d c e dir found =
    let same : d ≡ n = cc (sym e) in
    let dir' = subst (λ (k : ℕ). is_directory (m.at k).type ≡ true) same dir in
    let found' = subst (λ (k : ℕ). find t (m.at k).children ≡ some c) same found in
    rw (dir', found') refl
walk_last m n t (u ∷ us) d c e dir found = elim (Bool-cases (is_directory (m.at n).type)) [
  | inr file ↦ absurd (cc (rw file at e))
  | inl here ↦ elim (Option-cases (find t (m.at n).children)) [
    | inl gone ↦ absurd (cc (rw (here, gone) at e))
    | inr (k, at) ↦
        let rest = walk_last m k u us d c (rw (here, at) at e) dir found in rw (here, at) rest
  ]
]

parts_front-AreNames : (t : Text) (ts : List Text) → AreNames (t ∷ ts) → AreNames (parts_front t ts)
unfolding AreNames
parts_front-AreNames t [] h = tt
parts_front-AreNames t (u ∷ us) (h, hs) = (h, parts_front-AreNames u us hs)

-- The child at the end of the names, with the bytes and the type that it had.
abbrev pub Entered : List Text → ℕ → Memory → ℕ → Memory → Type 0
Entered parts child m k s =
    (k ≡ child)
    × (walk s root parts ≡ some child)
    × ((s.at child).bytes ≡ (m.at child).bytes)
    × ((s.at child).type ≡ (m.at child).type)

attach-Entered :
    (t : Text) (ts : List Text) (child d : ℕ) (m s : Memory)
    → child < m.next
    → IsTree s
    → Reaches m root (parts_front t ts) d s
    → Entered (t ∷ ts) child m child (attach d (parts_last t ts) child s)
unfolding Climbs
attach-Entered t ts child d m s below tree (g, w, dir) =
    let last = parts_last t ts in
    (
      refl,
      walk_last (attach d last child s) root t ts d child
          (walk-attach d last child s root [] (parts_front t ts) tree refl w)
          (ap is_directory (attach_type d last child d s) ∙ dir) (attach_found d last child s),
      attach_bytes d last child child s ∙ g.bytes child below,
      attach_type d last child child s ∙ g.types child below,
    )

place_parts-Entered :
    (parts : List Text) (child : ℕ) (m : Memory)
    → AreNames parts
    → child < m.next
    → IsTree m
    → Ends (Kept m) (λ k s. Entered parts child m k s) (place_parts parts child m)
place_parts-Entered [] child m names below t = Kept-refl m
place_parts-Entered (p ∷ ps) child m names below t =
    let front = join_slash (parts_front p ps) in
    let back = split_name-join_slash (parts_front p ps) (parts_front-AreNames p ps names) in
    Ends-continue (λ k s. Entered (p ∷ ps) child m k s) (mkdir_all front 0o755 m)
      (λ dir m'. (ok child, attach dir (parts_last p ps) child m')) (λ s u. u)
      (λ d s (tree, r).
        attach-Entered p ps child d m s below tree
          (subst (λ (ts : List Text). Reaches m root ts d s) back r))
      (Ends-both _ _ _ (mkdir_all front 0o755 m) (λ s g. g.tree) (mkdir_all-Keeps front 0o755 m t)
        (mkdir_all-Reaches front 0o755 m t))

pub place-Entered :
    (name : Text) (child : ℕ) (m : Memory)
    → child < m.next
    → IsTree m
    → Ends (Kept m) (λ k s. Entered (split_name name) child m k s) (place name child m)
unfolding place
place-Entered name child m below t =
    place_parts-Entered (split_name name) child m (split_name-AreNames name) below t

-- What the path leads to is a node with the bytes and the type of `i`.
abbrev pub FoundNew : Text → Inode → ℕ → Memory → Type 0
FoundNew name i n s = (get name s ≡ some n) × ((s.at n).bytes ≡ i.bytes) × ((s.at n).type ≡ i.type)

pub place_new-FoundNew :
    (name : Text) (i : Inode) (m : Memory)
    → i.children ≡ []
    → IsTree m
    → Ends (Kept m) (λ k s. FoundNew name i k s) (place_new name i m)
unfolding place_new get
place_new-FoundNew name i m empty t =
    let new : (alloc i m).1.at m.next ≡ i = ground arith in
    Ends-mono (place name m.next (alloc i m).1) (λ s g. Kept-trans t (alloc-Kept i m t) g)
      (λ k s (here, w, b, y).
        subst (λ (n : ℕ). FoundNew name i n s) (sym here)
          (w, b ∙ ap (λ (j : Inode). j.bytes) new, y ∙ ap (λ (j : Inode). j.type) new))
      (place-Entered name m.next (alloc i m).1 (omega arith) (alloc-IsTree i m empty t))

-- The bytes and the types of the nodes that were there.
abbrev pub SameData : Memory → Memory → Type 0
SameData m s =
    (n : ℕ) → n < m.next → ((s.at n).bytes ≡ (m.at n).bytes) × ((s.at n).type ≡ (m.at n).type)

place_parts-SameData :
    (parts : List Text) (child : ℕ) (m : Memory)
    → IsTree m
    → Ends (SameData m) (λ k s. SameData m s) (place_parts parts child m)
place_parts-SameData [] child m t = λ n below. (refl, refl)
place_parts-SameData (p ∷ ps) child m t =
    let front = join_slash (parts_front p ps) in
    Ends-continue (λ k s. SameData m s) (mkdir_all front 0o755 m)
      (λ dir m'. (ok child, attach dir (parts_last p ps) child m'))
      (λ s g n below. (g.bytes n below, g.types n below))
      (λ d s (g, w, dir) n below. (
        attach_bytes d (parts_last p ps) child n s ∙ g.bytes n below,
        attach_type d (parts_last p ps) child n s ∙ g.types n below,
      ))
      (mkdir_all-Reaches front 0o755 m t)

pub place_new-SameData :
    (name : Text) (i : Inode) (m : Memory)
    → i.children ≡ []
    → IsTree m
    → Ends (SameData m) (λ k s. SameData m s) (place_new name i m)
unfolding place_new place
place_new-SameData name i m empty t =
    let old : (s : Memory) → SameData (alloc i m).1 s → SameData m s = λ s h n below.
      let (b, y) = h n (omega (arith, below)) in
      let g = alloc-Kept i m t in (b ∙ g.bytes n below, y ∙ g.types n below) in
    Ends-mono (place name m.next (alloc i m).1) old (λ k s h. old s h)
      (place_parts-SameData (split_name name) m.next (alloc i m).1 (alloc-IsTree i m empty t))
