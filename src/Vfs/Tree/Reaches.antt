-- ===== src/Vfs/Tree/Reaches.antt =====
-- mkdirAll of vfs/memfs.go reaches the directory that its path names.
use pglite_go.Base.{
  ℕ, ◌<◌, ◌≡◌, refl, sym, ◌∙◌, ap, subst, true, false, Bool-cases, inl, inr, Option, none, some,
  List, [], ◌∷◌, arith,
}
use pglite_go.Base.Action.{continue, Ends, Ends-continue, Ends-mono}
use pglite_go.Vfs.Path.{Text, split_name}
use pglite_go.Vfs.Memory.{
  FileType, regular, symlink, whiteout, Inode, Memory, root, directory, is_directory, is_whiteout,
  find, enter, alloc, new_node, make_dir, enter_dir, mkdir_loop, mkdir_all, walk,
}
use pglite_go.Vfs.Tree.{IsTree, at_self, set_node-field}
use pglite_go.Vfs.Tree.Links.{make_dir-IsTree}
use pglite_go.Vfs.Tree.Kept.{Kept, Kept-refl, Kept-trans, find-enter_self, make_dir-Kept}

make_dir_found :
    (n mode : ℕ) (part : Text) (m : Memory)
    → find part ((make_dir n mode part m).1.at n).children ≡ some m.next
make_dir_found n mode part m =
    let s = (alloc (record (new_node directory mode) { name = part; parent = some n }) m).1 in
    ap (λ (j : Inode). find part j.children)
      (at_self n (record (s.at n) { children = enter part m.next (s.at n).children }) s)
    ∙ find-enter_self part m.next (s.at n).children

make_dir_directory :
    (n mode : ℕ) (part : Text) (m : Memory)
    → is_directory ((make_dir n mode part m).1.at m.next).type ≡ true
make_dir_directory n mode part m =
    let i : Inode = record (new_node directory mode) { name = part; parent = some n } in
    let s = (alloc i m).1 in
    let new : s.at m.next ≡ i = ground arith in
    ap is_directory (
      set_node-field (λ (j : Inode). j.type) n m.next
        (record (s.at n) { children = enter part m.next (s.at n).children }) s refl)
    ∙ ap (λ (j : Inode). is_directory j.type) new

-- One step down, to a directory that is there.
abbrev Entered : Memory → ℕ → Text → ℕ → Memory → Type 0
Entered m n part c s =
    Kept m s
    × (find part (s.at n).children ≡ some c)
    × (is_directory (s.at c).type ≡ true)
    × (c < s.next)
    × IsTree s

made_Entered :
    (n mode : ℕ) (part : Text) (m : Memory)
    → n < m.next
    → IsTree m
    → ((c : ℕ) → find part (m.at n).children ≡ some c → is_directory (m.at c).type ≡ false)
    → Entered m n part m.next (make_dir n mode part m).1
made_Entered n mode part m made t free = (
  make_dir-Kept n mode part m made t free,
  make_dir_found n mode part m,
  make_dir_directory n mode part m,
  omega arith,
  make_dir-IsTree n mode part m made t,
)

not_directory_white : (t : FileType) → is_whiteout t ≡ true → is_directory t ≡ false
not_directory_white regular h = refl
not_directory_white directory h = absurd (cc h)
not_directory_white symlink h = refl
not_directory_white whiteout h = refl

enter_dir-Entered :
    (n mode : ℕ) (part : Text) (o : Option ℕ) (m : Memory)
    → n < m.next
    → IsTree m
    → find part (m.at n).children ≡ o
    → Ends (Kept m) (λ c s. Entered m n part c s) (enter_dir n mode part o m)
enter_dir-Entered n mode part none m made t e =
    made_Entered n mode part m made t (λ c e'. absurd (cc (sym e' ∙ e)))
enter_dir-Entered n mode part (some c) m made t e = elim (Bool-cases (is_whiteout (m.at c).type)) [
  | inl white ↦
      let free : (c' : ℕ)
          → find part (m.at n).children ≡ some c'
          → is_directory (m.at c').type ≡ false =
        λ c' e'.
          let same : c ≡ c' = cc (sym e ∙ e') in
          subst (λ (k : ℕ). is_directory (m.at k).type ≡ false) same
            (not_directory_white (m.at c).type white) in
      rw white (made_Entered n mode part m made t free)
  | inr other ↦ elim (Bool-cases (is_directory (m.at c).type)) [
    | inr file ↦ rw (other, file) (Kept-refl m)
    | inl dir ↦
        let (p, q, below) = t.links n part c e in rw (other, dir) (Kept-refl m, e, dir, below, t)
  ]
]

-- The directory at the end of the names.
abbrev pub Reaches : Memory → ℕ → List Text → ℕ → Memory → Type 0
Reaches m n parts d s = Kept m s × (walk s n parts ≡ some d) × (is_directory (s.at d).type ≡ true)

mkdir_loop-Reaches :
    (n mode : ℕ) (parts : List Text) (m : Memory)
    → n < m.next
    → is_directory (m.at n).type ≡ true
    → IsTree m
    → Ends (Kept m) (λ d s. Reaches m n parts d s) (mkdir_loop n mode parts m)
unfolding mkdir_loop walk
mkdir_loop-Reaches n mode [] m made dir t = (Kept-refl m, refl, dir)
mkdir_loop-Reaches n mode (part ∷ parts) m made dir t =
    let Good : ℕ → Memory → Type 0 = λ d s. Reaches m n (part ∷ parts) d s in
    let ih : (c : ℕ) (s : Memory)
        → Entered m n part c s
        → Ends (Kept s) (λ d r. Reaches s c parts d r) (mkdir_loop c mode parts s) =
      λ c s (g, e, d, below, t'). mkdir_loop-Reaches c mode parts s below d t' in
    let all : Ends (Kept m) Good (
        continue (enter_dir n mode part (find part (m.at n).children) m)
          (λ c. mkdir_loop c mode parts)) =
      Ends-continue Good (enter_dir n mode part (find part (m.at n).children) m)
        (λ c. mkdir_loop c mode parts) (λ s u. u)
        (λ c s (g, e, d, below, t').
          Ends-mono (mkdir_loop c mode parts s) (λ r u. Kept-trans t g u)
            (λ d' r (h, w, d''). (Kept-trans t g h, through c s d' r g h e d w, d''))
            (ih c s (g, e, d, below, t')))
        (enter_dir-Entered n mode part (find part (m.at n).children) m made t refl) in
    rw dir all
  where
    through :
        (c : ℕ) (s : Memory) (d : ℕ) (r : Memory)
        → Kept m s
        → Kept s r
        → find part (s.at n).children ≡ some c
        → is_directory (s.at c).type ≡ true
        → walk r c parts ≡ some d
        → walk r n (part ∷ parts) ≡ some d
    through c s d r g h e dc w =
        let still : is_directory (r.at n).type ≡ true =
          ap is_directory (h.types n (omega (arith, made, g.more)) ∙ g.types n made) ∙ dir in
        rw (still, h.dirs n part c e dc) w

pub mkdir_all-Reaches :
    (name : Text) (mode : ℕ) (m : Memory)
    → IsTree m
    → Ends (Kept m) (λ d s. Reaches m root (split_name name) d s) (mkdir_all name mode m)
unfolding mkdir_all
mkdir_all-Reaches name mode m t =
    mkdir_loop-Reaches root mode (split_name name) m t.root_made t.root_dir t
