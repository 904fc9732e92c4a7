-- ===== src/Emscripten/Slice.antt =====
-- Reading a byte slice at a position, as emscripten/patch.go does with `data` and `pos`.
--
-- The slice keeps the bytes up to its capacity, since data[a:b] is limited by that, while data[a:]
-- and data[i] are limited by its length.
use pglite_go.Base.{
  ℕ, suc, ◌+◌, List, ◌++◌, length, take, drop, get_elem?, Option, none, some, leb, if◌then◌else◌,
}
use pglite_go.Base.Outcome.{Outcome, ok, err, panic, stuck}
use pglite_go.Cursor.{Cur}
use pglite_go.Emscripten.Codec.{read_leb128_u}

-- A reader of a slice from a position.
abbrev pub At {ℓ} : Type ℓ → Type ℓ
At A = Cur → ℕ → Outcome (A × ℕ)

abbrev pub continue {ℓ κ} :
    {A : Type ℓ} {B : Type κ} → Outcome (A × ℕ) → Cur → (A → At B) → Outcome (B × ℕ)
continue (ok (a, p)) c f = f a c p
continue (err e) c f = err e
continue panic c f = panic
continue stuck c f = stuck

infixl 5 ◌>>=◌ ◌>>◌
abbrev pub ◌>>=◌ {ℓ κ} : {A : Type ℓ} {B : Type κ} → At A → (A → At B) → At B
◌>>=◌ m f c p = continue (m c p) c f

abbrev pub ◌>>◌ {ℓ κ} : {A : Type ℓ} {B : Type κ} → At A → At B → At B
m >> k = m >>= λ _. k

abbrev pub pure {ℓ} : {A : Type ℓ} → A → At A
pure a c p = ok (a, p)

-- `v, n := readLEB128U(data[pos:]); pos += n`
unfoldable pub uint_at : At ℕ
uint_at c p =
    let r = read_leb128_u (drop p c.here) in
    if leb p (length c.here) then ok (r.0, p + r.1) else panic

-- `data[pos : pos+n]; pos += n`; an n from 2 ^ 63 on is a negative int, and panics as well.
unfoldable pub bytes_at : ℕ → At (List ℕ)
bytes_at n c p =
    if leb (p + n) (length c.here + length c.beyond)
    then ok (take n (drop p (c.here ++ c.beyond)), p + n)
    else panic

abbrev pub byte_of : Option ℕ → ℕ → Outcome (ℕ × ℕ)
byte_of none p = panic
byte_of (some x) p = ok (x, suc p)

-- `data[pos]; pos++`
unfoldable pub byte_at : At ℕ
byte_at c p = byte_of (get_elem? c.here p) p

-- `data[pos : pos+n]` as a slice with its own capacity; `pos` moves behind it.
unfoldable pub slice_at : ℕ → At Cur
slice_at n c p =
    let all = drop p (c.here ++ c.beyond) in
    if leb (p + n) (length c.here + length c.beyond)
    then ok (record { here = take n all; beyond = drop n all }, p + n)
    else panic
