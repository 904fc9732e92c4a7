-- ===== src/Wasm/RoundTrip/Codes.antt =====
-- The code section.
use pglite_go.Base.{
  ℕ, suc, ◌-◌, ◌^◌, ◌<◌, ◌≡◌, refl, sym, ap, ◌∙◌, List, [], ◌∷◌, ◌++◌, length, All, append_assoc,
  arith, concat_map, length-append, leb, true, append-nil,
}
use pglite_go.Base.Outcome.{ok}
use pglite_go.Cursor.{input}
use pglite_go.Cursor.Reads.{Reads, Reads-bind, Reads-map, Reads-pure, Reads-byte1, Reads-copy_bytes}
use pglite_go.Leb.{put_u32, u32_len}
use pglite_go.Leb.Unsigned.{u32_code, u32-u32_code, put_u32-eq-append}
use pglite_go.Leb.Vectors.{IsShort, Reads-vec, vec_code, All-map, u32-u32_len}
use pglite_go.Wasm.Model.{Code, Module}
use pglite_go.Wasm.Decode.{local_run, firsts, seconds, body_to, code_entry, parse_code, local_runs}
use pglite_go.Wasm.Encode.{encode_locals, encode_code_entry, encode_codes, encode_code}
use pglite_go.Wasm.RoundTrip.Imports.{IsU32}

abbrev pub run_code : ℕ × ℕ → List ℕ
run_code (n, t) = u32_code n ++ (t ∷ [])

abbrev zip_runs : List ℕ → List ℕ → List (ℕ × ℕ)
zip_runs (n ∷ ns) (t ∷ ts) = (n, t) ∷ zip_runs ns ts
zip_runs _ _ = []

-- The runs of local variables of a function.
abbrev pub runs : Code → List (ℕ × ℕ)
runs c = zip_runs c.local_counts c.local_types

abbrev pub locals_code : Code → List ℕ
locals_code c = vec_code run_code (runs c)

-- A count and a type for each run, and sizes that fit their encodings.
pub record IsCode (c : Code) : Type 0 where
  pub same_length : length c.local_types ≡ length c.local_counts
  pub short_locals : IsShort c.local_counts
  pub counts_fit : All IsU32 c.local_counts
  pub short_body : length (locals_code c ++ c.body) < 2 ^ 32

zip_runs-firsts :
    (ns ts : List ℕ)
    → length ts ≡ length ns
    → (firsts (zip_runs ns ts) ≡ ns)
      × (seconds (zip_runs ns ts) ≡ ts)
      × (length (zip_runs ns ts) ≡ length ns)
zip_runs-firsts [] [] h = (refl, refl, refl)
zip_runs-firsts [] (t ∷ ts) h = absurd (omega arith)
zip_runs-firsts (n ∷ ns) [] h = absurd (omega arith)
zip_runs-firsts (n ∷ ns) (t ∷ ts) h =
    let (f, s, l) = zip_runs-firsts ns ts (omega arith) in
    (ap (λ r. n ∷ r) f, ap (λ r. t ∷ r) s, ap suc l)

All-zip_runs : (ns ts : List ℕ) → All IsU32 ns → All (λ (p : ℕ × ℕ). IsU32 p.0) (zip_runs ns ts)
All-zip_runs [] [] h = tt
All-zip_runs [] (t ∷ ts) h = tt
All-zip_runs (n ∷ ns) [] h = tt
All-zip_runs (n ∷ ns) (t ∷ ts) (h, hs) = (h, All-zip_runs ns ts hs)

local_run-run_code : (p : ℕ × ℕ) → IsU32 p.0 → Reads local_run (run_code p) p
unfolding local_run
local_run-run_code (n, t) h =
    Reads-bind _ (u32-u32_code n h) (Reads-map _ (Reads-byte1 t) (Reads-pure _))

encode_locals-eq :
    (body ns ts : List ℕ)
    → length ts ≡ length ns
    → encode_locals body ns ts ≡ ok (body ++ concat_map run_code (zip_runs ns ts))
unfolding encode_locals
encode_locals-eq body [] [] h = ap ok (sym (append-nil body))
encode_locals-eq body [] (t ∷ ts) h = absurd (omega arith)
encode_locals-eq body (n ∷ ns) [] h = absurd (omega arith)
encode_locals-eq body (n ∷ ns) (t ∷ ts) h =
    encode_locals-eq (put_u32 body n ++ (t ∷ [])) ns ts (omega arith)
    ∙ ap ok (simp (put_u32-eq-append, append_assoc))

abbrev pub code_code : Code → List ℕ
code_code c = u32_code (u32_len (locals_code c ++ c.body)) ++ (locals_code c ++ c.body)

encode_code_entry-eq :
    (e : List ℕ) (c : Code) → IsCode c → encode_code_entry e c ≡ ok (e ++ code_code c)
unfolding encode_code_entry
encode_code_entry-eq e c h =
    rw
      (
        encode_locals-eq (put_u32 [] (u32_len c.local_counts)) c.local_counts c.local_types
            h.same_length,
        (zip_runs-firsts c.local_counts c.local_types h.same_length).2,
      )
      (simp (put_u32-eq-append, append_assoc))

encode_codes-eq :
    (e : List ℕ) (cs : List Code)
    → All IsCode cs
    → encode_codes e cs ≡ ok (e ++ concat_map code_code cs)
unfolding encode_codes
encode_codes-eq e [] h = ap ok (sym (append-nil e))
encode_codes-eq e (c ∷ cs) (h, hs) = rw (encode_code_entry-eq e c h) (
    encode_codes-eq (e ++ code_code c) cs hs
    ∙ ap ok (append_assoc e (code_code c) (concat_map code_code cs)))

pub encode_code-eq :
    (m : Module) → All IsCode m.codes → encode_code m ≡ ok (vec_code code_code m.codes)
unfolding encode_code
encode_code-eq m h =
    encode_codes-eq (put_u32 [] (u32_len m.codes)) m.codes h
    ∙ ap ok (simp (put_u32-eq-append, append_assoc))

-- The runs are read, and the cursor stands at the body.
Reads-runs : (c : Code) → IsCode c → Reads local_runs (locals_code c) (runs c)
Reads-runs c h =
    Reads-vec local_run run_code (runs c)
      (omega
        (arith, (zip_runs-firsts c.local_counts c.local_types h.same_length).2, h.short_locals))
      (All-map _ _ local_run-run_code (runs c)
        (All-zip_runs c.local_counts c.local_types h.counts_fit))

used-eq : (xs ys rest : List ℕ) → length ((xs ++ ys) ++ rest) - length (ys ++ rest) ≡ length xs
used-eq xs ys rest =
    omega (arith, length-append (xs ++ ys) rest, length-append xs ys, length-append ys rest)

reads_body :
    (xs ys rest beyond : List ℕ)
    → body_to (length (xs ++ ys)) (input ((xs ++ ys) ++ rest) beyond) (input (ys ++ rest) beyond)
      ≡ ok (ys, input rest beyond)
unfolding body_to
reads_body xs ys rest beyond =
    rw (used-eq xs ys rest, fits, left) ((Reads-copy_bytes ys).at rest beyond)
  where
    fits : leb (length xs) (length (xs ++ ys)) ≡ true
    fits = ground (arith, length-append xs ys)

    left : length (xs ++ ys) - length xs ≡ length ys
    left = omega (arith, length-append xs ys)

code_entry-code_code : (c : Code) → IsCode c → Reads code_entry (code_code c) c
unfolding code_entry
code_entry-code_code c h =
    Reads-bind _ (u32-u32_len (locals_code c ++ c.body) h.short_body) (record {
      at = λ rest beyond.
          rw
            (
              append_assoc (locals_code c) c.body rest,
              (Reads-runs c h).at (c.body ++ rest) beyond,
              ← append_assoc (locals_code c) c.body rest,
              reads_body (locals_code c) c.body rest beyond,
              (zip_runs-firsts c.local_counts c.local_types h.same_length).0,
              (zip_runs-firsts c.local_counts c.local_types h.same_length).1,
            )
            refl;
    })

-- `parse_code` reads back the code section that `encode_code` wrote.
pub parse_code-code_code :
    (m : Module)
    → IsShort m.codes
    → All IsCode m.codes
    → Reads parse_code (vec_code code_code m.codes) m.codes
unfolding parse_code
parse_code-code_code m short cs =
    Reads-vec code_entry code_code m.codes short (All-map IsCode _ code_entry-code_code m.codes cs)
