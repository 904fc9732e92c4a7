-- ===== src/Cursor/Reads.antt =====
-- `Reads rd bs a`: on an input that begins with `bs` the reader returns `a` and stops behind `bs`.
use pglite_go.Base.{
  ℕ, ◌+◌, ◌-◌, ◌≡◌, refl, List, [], ◌∷◌, ◌++◌, length, drop, arith, All, leb, concat_map,
  append_assoc, take-append, drop-append, length-append, true,
}
use pglite_go.Base.Outcome.{ok}
use pglite_go.Cursor.{Read, ◌>>=◌, pure, byte1, copy_bytes, repeat, input}

pub record Reads {ℓ} {A : Type ℓ} (rd : Read A) (bs : List ℕ) (a : A) : Type ℓ where
  pub at : (rest beyond : List ℕ) → rd (input (bs ++ rest) beyond) ≡ ok (a, input rest beyond)

module _ {ℓ κ} {A : Type ℓ} {B : Type κ} where
  pub Reads-bind :
      {m : Read A} (f : A → Read B) {bs cs : List ℕ} {a : A} {b : B}
      → Reads m bs a
      → Reads (f a) cs b
      → Reads (m >>= f) (bs ++ cs) b
  Reads-bind f {bs = bs} {cs = cs} h k = record {
    at = λ rest beyond. rw (append_assoc bs cs rest, h.at (cs ++ rest) beyond) (k.at rest beyond);
  }

pub Reads-pure {ℓ} : {A : Type ℓ} (a : A) → Reads (pure a) [] a
Reads-pure a = record { at = λ rest beyond. refl }

-- A last step that computes the result from what was read.
pub Reads-map {ℓ κ} :
    {A : Type ℓ} {B : Type κ} {m : Read A} (f : A → Read B) {bs : List ℕ} {a : A} {b : B}
    → Reads m bs a
    → Reads (f a) [] b
    → Reads (m >>= f) bs b
Reads-map f h k = record { at = λ rest beyond. rw (h.at rest beyond) (k.at rest beyond) }

pub Reads-byte1 : (x : ℕ) → Reads byte1 (x ∷ []) x
unfolding byte1
Reads-byte1 x = record { at = λ rest beyond. refl }

drop_all {ℓ} : {A : Type ℓ} (n : ℕ) (xs : List A) → n ≡ 0 → drop n xs ≡ xs
drop_all n xs e = rw e

pub cut-fits :
    (xs rest beyond : List ℕ) → leb (length xs) (length (xs ++ rest) + length beyond) ≡ true
cut-fits xs rest beyond = ground (arith, length-append xs rest)

pub Reads-copy_bytes : (xs : List ℕ) → Reads (copy_bytes (length xs)) xs xs
unfolding copy_bytes
Reads-copy_bytes xs = record {
  at = λ rest beyond.
      rw
        (
          (cut-fits xs rest beyond),
          (drop-append xs rest),
          (append_assoc xs rest beyond),
          (take-append xs (rest ++ beyond)),
          drop_all (length xs - length (xs ++ rest)) beyond (omega (arith, length-append xs rest)),
        )
        refl;
}

pub Reads-repeat {ℓ} :
    {A : Type ℓ} (rd : Read A) (enc : A → List ℕ) (xs : List A)
    → All (λ x. Reads rd (enc x) x) xs
    → Reads (repeat (length xs) rd) (concat_map enc xs) xs
unfolding repeat
Reads-repeat rd enc [] h = Reads-pure []
Reads-repeat rd enc (x ∷ xs) (h, hs) =
    Reads-bind _ h (Reads-map _ (Reads-repeat rd enc xs hs) (Reads-pure _))
