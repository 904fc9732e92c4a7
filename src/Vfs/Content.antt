-- ===== src/Vfs/Content.antt =====
-- What a file holds after a write and after a truncation.
use pglite_go.Base.{
  ℕ, zero, suc, ◌+◌, ◌-◌, ◌^◌, ◌≤◌, ◌<◌, ◌≡◌, refl, ap, sym, ◌∙◌, List, [], ◌∷◌, ◌++◌, length, take,
  drop, replicate, none, ltb, leb, arith, append-nil, append_assoc, length-append, length-take,
  length-drop, take-append, drop-append, take-append-drop, Bool-cases, inl, inr, true, false,
}
use pglite_go.Base.Outcome.{ok}
use pglite_go.Wire.Bytes.{pos}
use pglite_go.Vfs.File.{Node, cap, read_at, grow, copy_at, write_at, truncate}

take_long :
    (xs ys : List ℕ) (n : ℕ) → length xs ≤ n → take n (xs ++ ys) ≡ xs ++ take (n - length xs) ys
take_long [] ys n h = ap (λ (m : ℕ). take m ys) (omega arith)
take_long (x ∷ xs) ys zero h = absurd (omega (arith, h))
take_long (x ∷ xs) ys (suc n) h =
    ap (λ t. x ∷ t)
      (take_long xs ys n (omega (arith, h)) ∙ ap (λ (m : ℕ). xs ++ take m ys) (omega arith))

take_short : (xs ys : List ℕ) (n : ℕ) → n ≤ length xs → take n (xs ++ ys) ≡ take n xs
take_short xs ys zero h = refl
take_short [] ys (suc n) h = absurd (omega (arith, h))
take_short (x ∷ xs) ys (suc n) h = ap (λ t. x ∷ t) (take_short xs ys n (omega (arith, h)))

take_all : (xs : List ℕ) (n : ℕ) → length xs ≤ n → take n xs ≡ xs
take_all [] zero h = refl
take_all (x ∷ xs) zero h = absurd (omega (arith, h))
take_all [] (suc n) h = refl
take_all (x ∷ xs) (suc n) h = ap (λ t. x ∷ t) (take_all xs n (omega (arith, h)))

drop_past : (xs : List ℕ) (n : ℕ) → length xs ≤ n → drop n xs ≡ []
drop_past [] zero h = refl
drop_past [] (suc n) h = refl
drop_past (x ∷ xs) zero h = absurd (omega (arith, h))
drop_past (x ∷ xs) (suc n) h = drop_past xs n (omega (arith, h))

length-replicate : (n x : ℕ) → length (replicate n x) ≡ n
length-replicate zero x = refl
length-replicate (suc n) x = omega (arith, length-replicate n x)

-- Growing keeps the content in front and gives room for the bytes asked for.
grow_content :
    (n : Node) (m : ℕ)
    → (pad : List ℕ) × ((grow n m).content ≡ n.content ++ pad)
      × (length (grow n m).content ≡ length n.content + length pad)
      × (length pad ≡ m - length n.content)
unfolding grow
grow_content n m = elim (Bool-cases (ltb (length n.content) m)) [
  | inl more ↦ elim (Bool-cases (ltb (cap n) m)) [
    | inl full ↦ (
      replicate (m - length n.content) 0,
      rw (more, full) refl,
      rw (more, full) (length-append _ _),
      length-replicate _ 0,
    )
    | inr room ↦ (
      take (m - length n.content) n.spare,
      rw (more, room) (take_long n.content n.spare m (ground arith)),
      rw (more, room)
          (ap length (take_long n.content n.spare m (ground arith)) ∙ length-append _ _),
      ground (arith, length-take (m - length n.content) n.spare),
    )
  ]
  | inr fits ↦ ([], rw fits (sym (append-nil n.content)), rw fits (omega arith), ground arith)
]

-- A copy into a slice with room for it.
copy_at_room :
    (xs p : List ℕ) (off : ℕ)
    → off + length p ≤ length xs
    → copy_at xs off p ≡ ok (take off xs ++ (p ++ drop (off + length p) xs))
unfolding copy_at
copy_at_room xs p off h =
    let within : leb off (length xs) ≡ true = ground (arith, h) in
    rw (within, take_all p (length xs - off) (omega (arith, h))) refl

-- What stands at `off` is read at `off`.
read_at_middle :
    (front p rest : List ℕ) (off : ℕ)
    → 0 < length p
    → length front ≡ off
    → read_at (front ++ (p ++ rest)) (length p) (pos off) ≡ (p, none)
unfolding read_at
read_at_middle front p rest off some_bytes e =
    rw
      (
        sym e,
        length-append front (p ++ rest),
        length-append p rest,
        drop-append front (p ++ rest),
        take-append p rest,
      )
      (ground (arith, some_bytes))

-- The content after a write, by the buffer that the write copies into.
write_at_grown :
    (n : Node) (p : List ℕ) (off : ℕ)
    → off + length p < 2 ^ 63
    → write_at n p (pos off)
      ≡ ok (
        record (grow n (off + length p)) {
          content =
              take off (grow n (off + length p)).content
              ++ (p ++ drop (off + length p) (grow n (off + length p)).content);
        },
        (length p, none),
      )
unfolding write_at
write_at_grown n p off h =
    let (pad, e, l, k) = grow_content n (off + length p) in
    let in_range : ltb (off + length p) (2 ^ 63) ≡ true = ground (arith, h) in
    rw (in_range, copy_at_room (grow n (off + length p)).content p off (omega (arith, l, k))) refl

-- A write of some bytes at any offset, behind the end of the file too, stores all of them, and
-- they are read back there without an error, for an end below 2^63.
pub read_at-write_at :
    (n : Node) (p : List ℕ) (off : ℕ)
    → 0 < length p
    → off + length p < 2 ^ 63
    → (n' : Node) × (write_at n p (pos off) ≡ ok (n', (length p, none)))
      × (read_at n'.content (length p) (pos off) ≡ (p, none))
read_at-write_at n p off some_bytes h =
    let (pad, e, l, k) = grow_content n (off + length p) in
    let g = (grow n (off + length p)).content in
    (
      _,
      write_at_grown n p off h,
      read_at_middle (take off g) p (drop (off + length p) g) off some_bytes
          (omega (arith, length-take off g, l, k)),
    )

-- A write that begins within the file replaces its stretch and keeps the rest, whatever the
-- capacity of the buffer, for an end below 2^63.
pub write_at_content :
    (n : Node) (p : List ℕ) (off : ℕ)
    → off ≤ length n.content
    → off + length p < 2 ^ 63
    → (n' : Node) × (write_at n p (pos off) ≡ ok (n', (length p, none)))
      × (n'.content ≡ take off n.content ++ (p ++ drop (off + length p) n.content))
write_at_content n p off within h =
    let (pad, e, l, k) = grow_content n (off + length p) in
    let m = off + length p in
    let tail : drop m (grow n m).content ≡ drop m n.content = rw e (drop_pad n.content pad m k) in
    let front : take off (grow n m).content ≡ take off n.content =
      rw e (take_short n.content pad off within) in
    (_, write_at_grown n p off h, rw (tail, front) refl)
  where
    drop_pad :
        (xs pad : List ℕ) (m : ℕ) → length pad ≡ m - length xs → drop m (xs ++ pad) ≡ drop m xs
    drop_pad xs [] m k = ap (drop m) (append-nil xs)
    drop_pad xs (y ∷ ys) m k =
        drop_past (xs ++ (y ∷ ys)) m (omega (arith, k, length-append xs (y ∷ ys)))
        ∙ sym (drop_past xs m (omega (arith, k)))

-- The part of a buffer below its old length comes back where it is resliced.
grow_in_place :
    (n : Node) (size m : ℕ)
    → size < m
    → m ≤ length n.content
    → (grow
        (record { content = take size n.content; spare = drop size n.content ++ n.spare })
        m).content
      ≡ take m n.content
unfolding grow
grow_in_place n size m lt le =
    let cut = length-take size n.content in
    let rest = length-append (drop size n.content) n.spare in
    let less : ltb (length (take size n.content)) m ≡ true = ground (arith, cut) in
    let room : ltb (length (take size n.content) + length (drop size n.content ++ n.spare)) m
        ≡ false =
      ground (arith, cut, rest, length-drop size n.content) in
    rw
      (
        less,
        room,
        sym (append_assoc (take size n.content) (drop size n.content) n.spare),
        take-append-drop size n.content,
      )
      (take_short n.content n.spare m le)

take-take : (xs : List ℕ) (n m : ℕ) → n ≤ m → take n (take m xs) ≡ take n xs
take-take xs zero m h = refl
take-take [] (suc n) zero h = absurd (omega (arith, h))
take-take [] (suc n) (suc m) h = refl
take-take (x ∷ xs) (suc n) zero h = absurd (omega (arith, h))
take-take (x ∷ xs) (suc n) (suc m) h = ap (λ t. x ∷ t) (take-take xs n m (omega (arith, h)))

-- truncate cuts a file to the given size, and a write behind that end that stays within the old
-- file brings back the bytes that were cut off in front of it.
pub write_at-truncate :
    (n : Node) (p : List ℕ) (size off : ℕ)
    → size ≤ off
    → 0 < length p
    → off + length p ≤ length n.content
    → length n.content < 2 ^ 63
    → (n' : Node) × (n'' : Node) × (truncate n (pos size) ≡ ok n')
      × (n'.content ≡ take size n.content)
      × (write_at n' p (pos off) ≡ ok (n'', (length p, none)))
      × (n''.content ≡ take off n.content ++ p)
unfolding truncate
write_at-truncate n p size off behind some_bytes inside h =
    let m = off + length p in
    let shorter : ltb size (length n.content) ≡ true = ground arith in
    let n' : Node = record {
      content = take size n.content;
      spare = drop size n.content ++ n.spare;
    } in
    let g = grow_in_place n size m (omega arith) inside in
    let tail : drop m (take m n.content) ≡ [] =
      drop_past (take m n.content) m (omega (arith, length-take m n.content)) in
    (
      n',
      _,
      rw shorter refl,
      refl,
      write_at_grown n' p off (omega arith),
      rw (g, tail, take-take n.content off m (omega arith), append-nil p) refl,
    )
