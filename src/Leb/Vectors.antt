-- ===== src/Leb/Vectors.antt =====
-- Names and counted sequences of internal/wasmpass/wasm.go, written and read.
use pglite_go.Base.{
  ℕ, ◌^◌, ◌<◌, ◌≡◌, ◌∙◌, List, [], ◌∷◌, ◌++◌, length, foldl, foldl-appends, concat_map, All,
  append_assoc,
}
use pglite_go.Cursor.{Read, ◌>>=◌, copy_bytes, repeat}
use pglite_go.Cursor.Reads.{Reads, Reads-bind, Reads-copy_bytes, Reads-repeat}
use pglite_go.Leb.{u32, name, put_u32, put_name, u32_len}
use pglite_go.Leb.Unsigned.{u32_code, u32-u32_code, put_u32-eq-append}
use native.Mathlib.Nat.{mod-eq_of_lt}

abbrev pub IsShort {ℓ} : {A : Type ℓ} → List A → Type 0
IsShort xs = length xs < 2 ^ 32

pub u32-u32_len {ℓ} :
    {A : Type ℓ} (xs : List A) → IsShort xs → Reads u32 (u32_code (u32_len xs)) (length xs)
u32-u32_len xs h = rw (mod-eq_of_lt h) (u32-u32_code (length xs) h)

-- A length and the bytes.
abbrev pub name_code : List ℕ → List ℕ
name_code s = u32_code (u32_len s) ++ s

pub put_name-eq-append : (dst s : List ℕ) → put_name dst s ≡ dst ++ name_code s
unfolding put_name
put_name-eq-append dst s = simp (put_u32-eq-append, append_assoc)

-- `name` reads back every short string that `put_name` wrote.
pub name-name_code : (s : List ℕ) → IsShort s → Reads name (name_code s) s
unfolding name copy_bytes
name-name_code s h = Reads-bind _ (u32-u32_len s h) (Reads-copy_bytes s)

-- A count and that many items.
abbrev pub vec_code {ℓ} : {A : Type ℓ} → (A → List ℕ) → List A → List ℕ
vec_code code xs = u32_code (u32_len xs) ++ concat_map code xs

pub Reads-vec {ℓ} :
    {A : Type ℓ} (rd : Read A) (code : A → List ℕ) (xs : List A)
    → IsShort xs
    → All (λ x. Reads rd (code x) x) xs
    → Reads (u32 >>= λ n. repeat n rd) (vec_code code xs) xs
Reads-vec rd code xs short each = Reads-bind _ (u32-u32_len xs short) (Reads-repeat rd code xs each)

-- The encoder's loop over a sequence appends the count's bytes and the items'.
pub foldl-eq-vec_code {ℓ} :
    {A : Type ℓ} (put : List ℕ → A → List ℕ) (code : A → List ℕ)
    → ((e : List ℕ) (x : A) → put e x ≡ e ++ code x)
    → (e : List ℕ) (xs : List A) → foldl put (put_u32 e (u32_len xs)) xs ≡ e ++ vec_code code xs
foldl-eq-vec_code put code appends e xs =
    foldl-appends put code appends (put_u32 e (u32_len xs)) xs
    ∙ simp (put_u32-eq-append, append_assoc)

pub All-map {ℓ κ μ} :
    {A : Type ℓ} (P : A → Type κ) (Q : A → Type μ)
    → ((x : A) → P x → Q x)
    → (xs : List A) → All P xs
    → All Q xs
All-map P Q f [] h = tt
All-map P Q f (x ∷ xs) (h, hs) = (f x h, All-map P Q f xs hs)
