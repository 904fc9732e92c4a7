-- ===== src/Emscripten/Takes.antt =====
-- `Takes rd bs a`: where the slice continues with `bs`, the reader returns `a` and moves behind them.
use pglite_go.Base.{
  ℕ, ◌+◌, ◌^◌, ◌<◌, ◌≡◌, refl, ap, sym, some, List, [], ◌∷◌, ◌++◌, length, get_elem?, arith, leb,
  true, append_assoc, take-append, drop-append, length-append,
}
use pglite_go.Base.Outcome.{ok}
use pglite_go.Cursor.{Cur, input}
use pglite_go.Emscripten.Codec.{encode_leb128_u}
use pglite_go.Emscripten.Numbers.{read_leb128_u-encode_leb128_u}
use pglite_go.Emscripten.Slice.{At, ◌>>=◌, pure, uint_at, bytes_at, byte_at, slice_at}

pub record Takes {ℓ} {A : Type ℓ} (rd : At A) (bs : List ℕ) (a : A) : Type ℓ where
  pub at :
      (pre rest spare : List ℕ)
      → rd (input (pre ++ (bs ++ rest)) spare) (length pre) ≡ ok (a, length (pre ++ bs))

module _ {ℓ κ} {A : Type ℓ} {B : Type κ} where
  pub Takes-bind :
      {m : At A} (f : A → At B) {bs cs : List ℕ} {a : A} {b : B}
      → Takes m bs a
      → Takes (f a) cs b
      → Takes (m >>= f) (bs ++ cs) b
  Takes-bind f {bs = bs} {cs = cs} h k = record {
    at = λ pre rest spare.
        rw
          (
            append_assoc bs cs rest,
            h.at pre (cs ++ rest) spare,
            sym (append_assoc pre bs (cs ++ rest)),
            sym (append_assoc pre bs cs),
          )
          (k.at (pre ++ bs) rest spare);
  }

pub Takes-pure {ℓ} : {A : Type ℓ} (a : A) → Takes (pure a) [] a
Takes-pure a = record {
  at = λ pre rest spare. ap (λ (n : ℕ). ok (a, n)) (omega (arith, length-append pre []));
}

pub Takes-map {ℓ κ} :
    {A : Type ℓ} {B : Type κ} {m : At A} (f : A → At B) {bs : List ℕ} {a : A} {b : B}
    → Takes m bs a
    → ((c : _) (p : ℕ) → f a c p ≡ ok (b, p))
    → Takes (m >>= f) bs b
Takes-map f h k = record { at = λ pre rest spare. rw (h.at pre rest spare) (k _ _) }

at_front :
    (pre : List ℕ) (x : ℕ) (rest : List ℕ) → get_elem? (pre ++ (x ∷ rest)) (length pre) ≡ some x
at_front [] x rest = refl
at_front (y ∷ pre) x rest = at_front pre x rest

pub Takes-byte_at : (x : ℕ) → Takes byte_at (x ∷ []) x
unfolding byte_at
Takes-byte_at x = record {
  at = λ pre rest spare.
      rw (at_front pre x rest)
        (ap (λ (n : ℕ). ok (x, n)) (omega (arith, length-append pre (x ∷ []))));
}

pub Takes-uint_at : (v : ℕ) → v < 2 ^ 64 → Takes uint_at (encode_leb128_u v) v
unfolding uint_at
Takes-uint_at v h = record {
  at = λ pre rest spare.
      let bs = encode_leb128_u v in
      let within : leb (length pre) (length (pre ++ (bs ++ rest))) ≡ true =
        ground (arith, length-append pre (bs ++ rest)) in
      rw (within, drop-append pre (bs ++ rest), read_leb128_u-encode_leb128_u v rest h)
        (ap (λ (n : ℕ). ok (v, n)) (sym (length-append pre bs)));
}

fits :
    (pre bs rest spare : List ℕ)
    → leb (length pre + length bs) (length (pre ++ (bs ++ rest)) + length spare) ≡ true
fits pre bs rest spare = ground (arith, length-append pre (bs ++ rest), length-append bs rest)

pub Takes-bytes_at : (bs : List ℕ) → Takes (bytes_at (length bs)) bs bs
unfolding bytes_at
Takes-bytes_at bs = record {
  at = λ pre rest spare.
      rw
        (
          fits pre bs rest spare,
          append_assoc pre (bs ++ rest) spare,
          drop-append pre ((bs ++ rest) ++ spare),
          append_assoc bs rest spare,
          take-append bs (rest ++ spare),
        )
        (ap (λ (n : ℕ). ok (bs, n)) (sym (length-append pre bs)));
}

-- A slice of the input, used without reading on: what follows it is its capacity.
pub Takes-slice_at {κ} :
    {B : Type κ} (bs : List ℕ) (f : Cur → At B) {b : B}
    → ((beyond : List ℕ) (c : Cur) (p : ℕ) → f (input bs beyond) c p ≡ ok (b, p))
    → Takes (slice_at (length bs) >>= f) bs b
unfolding slice_at
Takes-slice_at bs f k = record {
  at = λ pre rest spare.
      rw
        (
          fits pre bs rest spare,
          append_assoc pre (bs ++ rest) spare,
          drop-append pre ((bs ++ rest) ++ spare),
          append_assoc bs rest spare,
          take-append bs (rest ++ spare),
          drop-append bs (rest ++ spare),
          sym (length-append pre bs),
        )
        (k (rest ++ spare) _ (length (pre ++ bs)));
}
