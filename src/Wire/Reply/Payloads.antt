-- ===== src/Wire/Reply/Payloads.antt =====
-- The decoders of wire.go on the payloads of a response's messages: `decodeRowDesc`,
-- `decodeError` and the tag.
use pglite_go.Base.{
  ℕ, zero, suc, ◌+◌, ◌*◌, ◌/◌, ◌%◌, ◌^◌, ◌<◌, ◌≤◌, ◌≡◌, refl, true, Option, none, some, List, [],
  ◌∷◌, ◌++◌, length, drop, get_elem?, map, concat_map, All, ◌==◌, leb, if◌then◌else◌, arith,
  append_assoc, append-nil, length-append,
}
use pglite_go.Base.Outcome.{ok}
use pglite_go.Wire.Bytes.{append_u16, take_string, trim_zeros}
use pglite_go.Wire.Frames.{bytes_of_u32}
use pglite_go.Wire.Response.{
  RowDesc, column_fields, desc_loop, decode_row_desc, error_loop, decode_error,
}
use pglite_go.Wire.Reply.{
  Column, numbers_code, column_code, field_code, IsString, IsColumn, IsField, field_or,
  behind_severity, failure_text, first_column, other_columns,
}

take_string-end : (t p : List ℕ) → IsString t → take_string (t ++ (0 ∷ p)) ≡ ok (t, p)
unfolding take_string
take_string-end [] p h = refl
take_string-end (b ∷ t) p (h, hs) = rw (h, take_string-end t p hs) refl

pub word_u16 : (v : ℕ) → v < 2 ^ 16 → v / 2 ^ 8 % 256 * 2 ^ 8 + v % 256 ≡ v
word_u16 v h = omega arith

column_fields-code :
    (c : Column) (rest : List ℕ)
    → IsColumn c
    → column_fields (numbers_code c ++ rest) ≡ ok ((c.oid, c.format), rest)
column_fields-code c rest (h, o, f) = rw (long, bytes_of_u32 c.oid o, word_u16 c.format f) refl
  where
    long : leb 18 (length (numbers_code c ++ rest)) ≡ true
    long = ground arith

abbrev described : List Column → RowDesc
described cs = record {
  names = map (λ (c : Column). c.name) cs;
  oids = map (λ (c : Column). c.oid) cs;
  formats = map (λ (c : Column). c.format) cs;
}

abbrev onto : RowDesc → RowDesc → RowDesc
onto d e = record {
  names = d.names ++ e.names;
  oids = d.oids ++ e.oids;
  formats = d.formats ++ e.formats;
}

desc_loop-code :
    (cs : List Column) (d : RowDesc)
    → All IsColumn cs
    → desc_loop (length cs) (concat_map column_code cs) d ≡ ok (onto d (described cs))
unfolding desc_loop
desc_loop-code [] d h = rw (append-nil d.names, append-nil d.oids, append-nil d.formats) refl
desc_loop-code (c ∷ cs) d ((s, o, f), hs) =
    let rest = concat_map column_code cs in
    rw
      (
        append_assoc c.name (0 ∷ numbers_code c) rest,
        take_string-end c.name (numbers_code c ++ rest) s,
        column_fields-code c rest (s, o, f),
        desc_loop-code cs (onto d (described (c ∷ []))) hs,
        append_assoc d.names (c.name ∷ []) (map (λ (c : Column). c.name) cs),
        append_assoc d.oids (c.oid ∷ []) (map (λ (c : Column). c.oid) cs),
        append_assoc d.formats (c.format ∷ []) (map (λ (c : Column). c.format) cs),
      )
      refl

pub decode_row_desc-code :
    (cs : List Column)
    → length cs < 2 ^ 16
    → All IsColumn cs
    → decode_row_desc (append_u16 [] (length cs) ++ concat_map column_code cs) ≡ ok (described cs)
unfolding decode_row_desc
decode_row_desc-code cs n h = rw (word_u16 (length cs) n) (desc_loop-code cs (described []) h)

error_loop-code :
    (fs : List (ℕ × List ℕ)) (fuel : ℕ) (sev msg : List ℕ)
    → length fs < fuel
    → All IsField fs
    → error_loop fuel (concat_map field_code fs ++ (0 ∷ [])) sev msg
      ≡ ok (behind_severity (field_or b'S' sev fs) (field_or b'M' msg fs))
unfolding error_loop
error_loop-code fs zero sev msg h k = absurd (omega arith)
error_loop-code [] (suc fuel) [] msg h k = refl
error_loop-code [] (suc fuel) (c ∷ sev) msg h k = refl
error_loop-code ((code, t) ∷ fs) (suc fuel) sev msg h ((nz, s), ks) =
    let rest = concat_map field_code fs ++ (0 ∷ []) in
    rw
      (
        nz,
        append_assoc (t ++ (0 ∷ [])) (concat_map field_code fs) (0 ∷ []),
        append_assoc t (0 ∷ []) rest,
        take_string-end t rest s,
      )
      (error_loop-code fs fuel (if code == b'S' then t else sev) (if code == b'M' then t else msg)
        (omega arith) ks)

fields_short : (fs : List (ℕ × List ℕ)) → length fs ≤ length (concat_map field_code fs)
fields_short [] = omega arith
fields_short ((code, t) ∷ fs) = omega (
  arith,
  fields_short fs,
  length-append (t ++ (0 ∷ [])) (concat_map field_code fs),
  length-append t (0 ∷ []),
)

pub decode_error-code :
    (fs : List (ℕ × List ℕ))
    → All IsField fs
    → decode_error (concat_map field_code fs ++ (0 ∷ [])) ≡ ok (failure_text fs)
unfolding decode_error
decode_error-code fs h =
    error_loop-code fs (length (concat_map field_code fs ++ (0 ∷ []))) [] []
      (omega (arith, fields_short fs, length-append (concat_map field_code fs) (0 ∷ []))) h

pub trim_zeros-end : (t : List ℕ) → IsString t → trim_zeros (t ++ (0 ∷ [])) ≡ t
unfolding trim_zeros
trim_zeros-end [] h = refl
trim_zeros-end (b ∷ t) (h, hs) = rw (h, trim_zeros-end t hs) refl

abbrev pub map_column : (Column → ℕ) → Option Column → Option ℕ
map_column f none = none
map_column f (some c) = some (f c)

pub get_elem?-drop :
    (f : Column → ℕ) (cs : List Column) (i : ℕ)
    → get_elem? (map f cs) i ≡ map_column f (first_column (drop i cs))
get_elem?-drop f [] zero = refl
get_elem?-drop f [] (suc i) = refl
get_elem?-drop f (c ∷ cs) zero = refl
get_elem?-drop f (c ∷ cs) (suc i) = get_elem?-drop f cs i

pub drop-other_columns : (i : ℕ) (cs : List Column) → drop (suc i) cs ≡ other_columns (drop i cs)
drop-other_columns zero [] = refl
drop-other_columns zero (c ∷ cs) = refl
drop-other_columns (suc i) [] = refl
drop-other_columns (suc i) (c ∷ cs) = drop-other_columns i cs
