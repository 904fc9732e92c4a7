-- ===== src/Bundle/Bounds.antt =====
-- The ranges of a loaded bundle lie within its blob, bundlefs.go.
use pglite_go.Base.{
  ℕ, ◌-◌, ◌≤◌, ◌≡◌, refl, subst, true, ◌||◌, Bool-cases, inl, inr, Option, none, some, List, [],
  ◌∷◌, length, take, drop, leb, ltb, ◌==◌, arith, length-take, length-drop,
}
use pglite_go.Base.Outcome.{Outcome, ok, err, panic, stuck}
use pglite_go.Base.Action.{Holds, Holds-continue}
use pglite_go.Wire.Bytes.{ℤ, pos, negsuc}
use pglite_go.Vfs.Path.{Text, split_slash, trim_prefix, clean}
use pglite_go.Bundle.{
  Entry, Children, BundleNode, Bundle, named_in, dir_node, file_node, empty_bundle, add_under,
  add_node, extend, child_dir, insert_loop, insert_parts, insert, add_range, add_entries, file_mode,
  built, load_bundle,
}
use pglite_go.Bundle.Handles.{file_bytes}

-- A range within a blob of that many bytes.
abbrev Within : ℕ → BundleNode → Type 0
Within size i = (i.start ≤ i.end) × (i.end ≤ size)

-- All ranges are within a blob of `size` bytes.
record InRange (size : ℕ) (b : Bundle) : Type 0 where
  same : length b.bytes ≡ size
  ranges : (n : ℕ) → Within size (b.at n)

abbrev Stays : {A : Type 0} → ℕ → Outcome A × Bundle → Type 0
Stays {A} size r = Holds (InRange size) (λ a b. Unit {0}) r

add_under-Stays :
    (size parent : ℕ) (name path : Text) (i : BundleNode) (o : Option Children) (b : Bundle)
    → Within size i
    → InRange size b
    → Stays size (add_under parent name path i o b)
add_under-Stays size parent name path i none b h r = r
add_under-Stays size parent name path i (some cs) b h r =
    (record { same = r.same; ranges = λ k. at k }, tt)
  where
    at : (k : ℕ) → Within size ((add_under parent name path i (some cs) b).1.at k)
    at k = elim (Bool-cases (k == b.next)) [
      | inl new ↦ rw new h
      | inr old ↦ elim (Bool-cases (k == parent)) [
        | inl up ↦ rw (old, up) (r.ranges parent)
        | inr other ↦ rw (old, other) (r.ranges k)
      ]
    ]

child_dir-Stays :
    (size parent : ℕ) (part path : Text) (o : Option ℕ) (b : Bundle)
    → InRange size b
    → Stays size (child_dir parent part path o b)
child_dir-Stays size parent part path (some c) b r = (r, tt)
child_dir-Stays size parent part path none b r =
    add_under-Stays size parent part path (dir_node part) (b.at parent).children b
      (omega arith, omega arith) r

insert_loop-Stays :
    (size start end mode parent : ℕ) (rel prefix part : Text) (parts : List Text) (b : Bundle)
    → start ≤ end
    → end ≤ size
    → InRange size b
    → Stays size (insert_loop rel start end mode prefix parent part parts b)
unfolding insert_loop
insert_loop-Stays size start end mode parent rel prefix part [] b h k r =
    Holds-continue (λ u s. Unit {0}) (add_node parent part rel (file_node part mode start end) b)
      (λ n s. (ok tt, s)) (λ s i. i) (λ n s i u. (i, tt))
      (add_under-Stays size parent part rel (file_node part mode start end) (b.at parent).children b
        (h, k) r)
insert_loop-Stays size start end mode parent rel prefix part (next ∷ parts) b h k r =
    Holds-continue (λ u s. Unit {0})
      (child_dir parent part (extend prefix part) (named_in part (b.at parent).children) b)
      (λ c. insert_loop rel start end mode (extend prefix part) c next parts) (λ s i. i)
      (λ c s i u.
        insert_loop-Stays size start end mode c rel (extend prefix part) next parts s h k i)
      (child_dir-Stays size parent part (extend prefix part) (named_in part (b.at parent).children)
        b r)

insert_parts-Stays :
    (size start end mode : ℕ) (rel : Text) (parts : List Text) (b : Bundle)
    → start ≤ end
    → end ≤ size
    → InRange size b
    → Stays size (insert_parts rel start end mode parts b)
insert_parts-Stays size start end mode rel [] b h k r = r
insert_parts-Stays size start end mode rel (part ∷ parts) b h k r =
    insert_loop-Stays size start end mode 0 rel [] part parts b h k r

add_range-Stays :
    (size : ℕ) (name : Text) (start end : ℤ) (b : Bundle)
    → InRange size b
    → Stays size (add_range name start end b)
unfolding insert
add_range-Stays size name (negsuc k) end b r = r
add_range-Stays size name (pos start) (negsuc k) b r = r
add_range-Stays size name (pos start) (pos end) b r =
    elim (Bool-cases (ltb (length b.bytes) end || ltb end start)) [
      | inl bad ↦ rw bad r
      | inr good ↦
          let rel = trim_prefix (clean (b'/' ∷ name)) in
          rw good (
            insert_parts-Stays size start end (file_mode name) rel (split_slash rel) b
              (ground (arith, good)) (ground (arith, good, r.same)) r)
    ]

add_entries-Stays :
    (size : ℕ) (es : List Entry) (b : Bundle) → InRange size b → Stays size (add_entries es b)
unfolding add_entries
add_entries-Stays size [] b r = (r, tt)
add_entries-Stays size (e ∷ es) b r =
    Holds-continue (λ u s. Unit {0}) (add_range e.filename e.start e.end b) (λ u. add_entries es)
      (λ s i. i) (λ u s i w. add_entries-Stays size es s i)
      (add_range-Stays size e.filename e.start e.end b r)

built-InRange :
    (size : ℕ) (r : Outcome (Unit {0}) × Bundle) (b : Bundle)
    → Stays size r
    → built r ≡ ok b
    → InRange size b
built-InRange size (ok u, s) b h e = subst (λ (t : Bundle). InRange size t) (cc e) h.0
built-InRange size (err x, s) b h e = absurd (cc e)
built-InRange size (panic, s) b h e = absurd (cc e)
built-InRange size (stuck, s) b h e = absurd (cc e)

empty_bundle-InRange : (bytes : List ℕ) → InRange (length bytes) (empty_bundle bytes)
unfolding empty_bundle
empty_bundle-InRange bytes = record { same = refl; ranges = λ n. (omega arith, omega arith) }

-- In a bundle that loadBundleFS has made, the range of every node lies within the blob, so that
-- bytes does not panic, and it gives as many bytes as the range is long.
pub load_bundle-file_bytes :
    (es : List Entry) (bytes : List ℕ) (b : Bundle) (n : ℕ)
    → load_bundle (some es) (some bytes) ≡ ok b
    → (got : List ℕ) × (file_bytes b n ≡ ok got) × (length got ≡ (b.at n).end - (b.at n).start)
unfolding load_bundle file_bytes
load_bundle-file_bytes es bytes b n e =
    let r =
      built-InRange (length bytes) (add_entries es (empty_bundle bytes)) b
        (add_entries-Stays (length bytes) es (empty_bundle bytes) (empty_bundle-InRange bytes)) e in
    let (ordered, inside) = r.ranges n in
    let first : leb (b.at n).start (b.at n).end ≡ true = ground (arith, ordered) in
    let last : leb (b.at n).end (length b.bytes) ≡ true = ground (arith, inside, r.same) in
    (
      take ((b.at n).end - (b.at n).start) (drop (b.at n).start b.bytes),
      rw (first, last) refl,
      omega (
        arith,
        length-take ((b.at n).end - (b.at n).start) (drop (b.at n).start b.bytes),
        length-drop (b.at n).start b.bytes,
        ordered,
        inside,
        r.same,
      ),
    )
