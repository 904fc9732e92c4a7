-- ===== src/Wasm/RoundTrip/Sections.antt =====
-- The section loop of `Decode`, one section at a time.
use pglite_go.Base.{
  ℕ, zero, suc, ◌-◌, ◌<◌, ◌≡◌, refl, sym, subst, Bool, true, false, List, [], ◌∷◌, ◌++◌, length,
  append_assoc, append-nil, arith, length-append, take-append, drop-append, if◌then◌else◌,
}
use pglite_go.Base.Outcome.{Outcome, ok}
use pglite_go.Cursor.{Read, bytes, input, byte1, eof}
use pglite_go.Cursor.Reads.{Reads, cut-fits}
use pglite_go.Leb.{u32_len}
use pglite_go.Leb.Unsigned.{u32_code, put_u32-eq-append}
use pglite_go.Leb.Vectors.{IsShort, name_code, u32-u32_len}
use pglite_go.Wasm.Model.{Module}
use pglite_go.Wasm.Decode.{parsed, decode_section, section_frame, decode_loop}
use pglite_go.Wasm.Encode.{section}

abbrev pub section_code : ℕ → List ℕ → List ℕ
section_code id p = id ∷ name_code p

pub section-eq : (id : ℕ) (p : List ℕ) → section id p ≡ section_code id p
unfolding section
section-eq id p = simp (put_u32-eq-append, append_assoc)

bytes-payload :
    (p rest beyond : List ℕ)
    → bytes (length p) (input (p ++ rest) beyond) ≡ ok (input p (rest ++ beyond), input rest beyond)
unfolding bytes
bytes-payload p rest beyond =
    rw
      (
        cut-fits p rest beyond,
        drop-append p rest,
        append_assoc p rest beyond,
        take-append p (rest ++ beyond),
        drop-append p (rest ++ beyond),
        none_over,
      )
      refl
  where
    none_over : length p - length (p ++ rest) ≡ 0
    none_over = omega (arith, length-append p rest)

section_frame-section_code :
    (id : ℕ) (p rest beyond : List ℕ)
    → IsShort p
    → section_frame (input (section_code id p ++ rest) beyond)
      ≡ ok ((id, input p (rest ++ beyond)), input rest beyond)
unfolding section_frame byte1
section_frame-section_code id p rest beyond h =
    rw
      (
        append_assoc (u32_code (u32_len p)) p rest,
        (u32-u32_len p h).at (p ++ rest) beyond,
        bytes-payload p rest beyond,
      )
      refl

-- A parser that reads the whole payload.
pub parsed-Reads {ℓ κ} :
    {A : Type ℓ} {B : Type κ} {rd : Read A} {p : List ℕ} {a : A} (f : A → B) (beyond : List ℕ)
    → Reads rd p a
    → parsed (rd (input p beyond)) f ≡ ok (f a)
parsed-Reads {p = p} f beyond h = rw (← append-nil p, h.at [] beyond) refl

-- With fuel for every unread byte the loop ends in `o`.
pub record Decodes (here beyond : List ℕ) (m : Module) (o : Outcome Module) : Type 0 where
  pub run : (fuel : ℕ) → length here < fuel → decode_loop fuel (input here beyond) m ≡ o

pub Decodes-end : (beyond : List ℕ) (m : Module) → Decodes [] beyond m (ok m)
unfolding decode_loop eof
Decodes-end beyond m = record { run = λ fuel h. ended fuel h }
  where
    ended : (fuel : ℕ) → 0 < fuel → decode_loop fuel (input [] beyond) m ≡ ok m
    ended zero h = absurd (omega arith)
    ended (suc fuel) h = refl

-- A section that its parser accepts, in front of what decodes to `o`.
pub Decodes-section :
    (id : ℕ) (p : List ℕ) {rest beyond : List ℕ} {m : Module} (m' : Module) {o : Outcome Module}
    → IsShort p
    → decode_section id (input p (rest ++ beyond)) m ≡ ok m'
    → Decodes rest beyond m' o
    → Decodes (section_code id p ++ rest) beyond m o
unfolding decode_loop eof
Decodes-section id p {rest = rest} {beyond = beyond} {m = m} m' {o = o} short step d = record {
  run = go;
}
  where
    go :
        (fuel : ℕ)
        → length (section_code id p ++ rest) < fuel
        → decode_loop fuel (input (section_code id p ++ rest) beyond) m ≡ o
    go zero h = absurd (omega arith)
    go (suc fuel) h =
        rw (section_frame-section_code id p rest beyond short, step)
          (d.run fuel (omega (arith, length-append (section_code id p) rest)))

abbrev pub section_code_if : Bool → ℕ → List ℕ → List ℕ
section_code_if b id p = if b then section_code id p else []

-- A section that is written only on a condition, and leaves no trace where it is not.
pub Decodes-if :
    (b : Bool) (id : ℕ) (p : List ℕ) {rest beyond : List ℕ} {m : Module} (m' : Module)
    {o : Outcome Module}
    → IsShort p
    → (b ≡ true → decode_section id (input p (rest ++ beyond)) m ≡ ok m')
    → (b ≡ false → m ≡ m')
    → Decodes rest beyond m' o
    → Decodes (section_code_if b id p ++ rest) beyond m o
Decodes-if true id p m' short step same d = Decodes-section id p m' short (step refl) d
Decodes-if false id p {rest = rest} {beyond = beyond} m' {o = o} short step same d =
    subst (λ x. Decodes rest beyond x o) (sym (same refl)) d
