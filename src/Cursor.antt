-- ===== src/Cursor.antt =====
-- The byte cursor `cur` of internal/wasmpass/wasm.go, and reading as a state monad.
--
-- A Go slice can be cut again up to its capacity, so a cursor keeps the bytes of c.b from c.p to
-- its length (`here`) and those from there to its capacity (`beyond`).
pub mod Reads
use pglite_go.Base.{
  ℕ, suc, ◌+◌, ◌-◌, List, [], ◌∷◌, ◌++◌, length, take, drop, leb, if◌then◌else◌, Bool, true, false,
}
use pglite_go.Base.Outcome.{Outcome, ok, err, panic, stuck}

pub record Cur : Type 0 where
  pub here : List ℕ
  pub beyond : List ℕ

abbrev pub Read {ℓ} : Type ℓ → Type ℓ
Read A = Cur → Outcome (A × Cur)

abbrev pub continue {ℓ κ} :
    {A : Type ℓ} {B : Type κ} → Outcome (A × Cur) → (A → Read B) → Outcome (B × Cur)
continue (ok (a, c)) f = f a c
continue (err e) f = err e
continue panic f = panic
continue stuck f = stuck

infixl 5 ◌>>=◌ ◌>>◌
abbrev pub ◌>>=◌ {ℓ κ} : {A : Type ℓ} {B : Type κ} → Read A → (A → Read B) → Read B
◌>>=◌ m f c = continue (m c) f

abbrev pub ◌>>◌ {ℓ κ} : {A : Type ℓ} {B : Type κ} → Read A → Read B → Read B
m >> k = m >>= λ _. k

abbrev pub pure {ℓ} : {A : Type ℓ} → A → Read A
pure a c = ok (a, c)

abbrev pub fault {ℓ} : {A : Type ℓ} → Read A
fault c = panic

-- c.b[c.p] at or behind the length panics.
byte1_of : List ℕ → List ℕ → Outcome (ℕ × Cur)
byte1_of [] beyond = panic
byte1_of (x ∷ xs) beyond = ok (x, record { here = xs; beyond = beyond })

unfoldable pub byte1 : Read ℕ
unfolding byte1_of
byte1 c = byte1_of c.here c.beyond

-- c.p += n
unfoldable pub skip : ℕ → Read (Unit {0})
skip n c = ok (tt, record { here = drop n c.here; beyond = drop (n - length c.here) c.beyond })

-- The slice c.b[c.p : c.p+n]: its bytes, and those up to its capacity.
unfoldable pub bytes : ℕ → Read Cur
bytes n c =
    if leb n (length c.here + length c.beyond)
    then ok (
      record { here = take n (c.here ++ c.beyond); beyond = drop n (c.here ++ c.beyond) },
      record { here = drop n c.here; beyond = drop (n - length c.here) c.beyond },
    )
    else panic

-- The bytes of that slice, copied.
unfoldable pub copy_bytes : ℕ → Read (List ℕ)
unfolding bytes
copy_bytes n = do w ← bytes n; pure w.here

unfoldable pub eof : Cur → Bool
eof c = elim c.here [ [] ↦ true | _ ∷ _ ↦ false ]

-- `for i := 0; i < n; i++ { xs = append(xs, <read>) }`
unfoldable pub repeat {ℓ} : {A : Type ℓ} → ℕ → Read A → Read (List A)
repeat ℕ.zero rd = pure []
repeat (suc n) rd = do x ← rd; xs ← repeat n rd; pure (x ∷ xs)

abbrev pub input : List ℕ → List ℕ → Cur
input here beyond = record { here = here; beyond = beyond }
