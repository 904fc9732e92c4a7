-- ===== src/Wire/Total.antt =====
-- The loops of wire.go inside a message, and their fuel.
use pglite_go.Base.{
  ℕ, zero, suc, ◌+◌, ◌^◌, ◌≤◌, ◌<◌, ◌≡◌, List, [], ◌∷◌, length, drop, arith, leb, ◌==◌, ◌≢◌, Option,
  get_elem?, Bool-cases, inl, inr,
}
use pglite_go.Base.Outcome.{ok, stuck, >>=-eq-ok, >>=-ne-stuck, >>=-ok-ne-stuck}
use pglite_go.Wire.Bytes.{take_string, slice_from, take_u16, take_u32}
use pglite_go.Wire.Response.{
  error_loop, decode_error, Parsing, apply_message, decode_row_desc, desc_loop, RowDesc,
  decode_data_row, row_loop, column_fields, take_value, oid_at, set_desc, add_row,
}
use pglite_go.Wire.Value.{Floats}

take_string_shrinks :
    (p : List ℕ) {r : List ℕ × List ℕ} → take_string p ≡ ok r → length r.1 < length p
unfolding take_string
take_string_shrinks [] h = cc
take_string_shrinks (b ∷ p) h = elim (Bool-cases (b == 0)) [
  | inl e ↦ ground arith
  | inr e ↦
      let (t, got, eq) = >>=-eq-ok (take_string p) _ (rw e at h) in
      ground (arith, take_string_shrinks p got)
]

take_string-ne-stuck : (p : List ℕ) → take_string p ≢ stuck
unfolding take_string
take_string-ne-stuck [] = λ e. cc
take_string-ne-stuck (b ∷ p) = elim (Bool-cases (b == 0)) [
  | inl e ↦ rw e (λ x. cc)
  | inr e ↦ rw e (>>=-ne-stuck (take_string p) _ (take_string-ne-stuck p) (λ a h x. cc))
]

error_loop-ne-stuck :
    (fuel : ℕ) (p sev msg : List ℕ) → length p ≤ fuel → error_loop fuel p sev msg ≢ stuck
unfolding error_loop
error_loop-ne-stuck zero [] sev msg h = λ e. cc
error_loop-ne-stuck (suc fuel) [] sev msg h = λ e. cc
error_loop-ne-stuck zero (c ∷ p) sev msg h = absurd (omega arith)
error_loop-ne-stuck (suc fuel) (c ∷ p) sev msg h = elim (Bool-cases (c == 0)) [
  | inl e ↦ rw e (λ x. cc)
  | inr e ↦ rw e (
      >>=-ne-stuck (take_string p) _ (take_string-ne-stuck p)
        (λ r got. error_loop-ne-stuck fuel r.1 _ _ (omega (arith, take_string_shrinks p got))))
]

take_u16-ne-stuck : (p : List ℕ) → take_u16 p ≢ stuck
take_u16-ne-stuck [] = λ e. cc
take_u16-ne-stuck (a ∷ []) = λ e. cc
take_u16-ne-stuck (a ∷ b ∷ p) = λ e. cc

take_u32-ne-stuck : (p : List ℕ) → take_u32 p ≢ stuck
take_u32-ne-stuck [] = λ e. cc
take_u32-ne-stuck (a ∷ []) = λ e. cc
take_u32-ne-stuck (a ∷ b ∷ []) = λ e. cc
take_u32-ne-stuck (a ∷ b ∷ c ∷ []) = λ e. cc
take_u32-ne-stuck (a ∷ b ∷ c ∷ d ∷ p) = λ e. cc

slice_from-ne-stuck : (n : ℕ) (p : List ℕ) → slice_from n p ≢ stuck
slice_from-ne-stuck n p = elim (Bool-cases (leb n (length p))) [
  | inl e ↦ rw e (λ x. cc)
  | inr e ↦ rw e (λ x. cc)
]

column_fields-ne-stuck : (p : List ℕ) → column_fields p ≢ stuck
column_fields-ne-stuck p = >>=-ne-stuck (slice_from 18 p) _ (slice_from-ne-stuck 18 p) (λ r e.
    >>=-ne-stuck (take_u32 (drop 6 p)) _ (take_u32-ne-stuck (drop 6 p)) (λ o e'.
      >>=-ne-stuck (take_u16 (drop 16 p)) _ (take_u16-ne-stuck (drop 16 p)) (λ f e'' x. cc)))

desc_loop-ne-stuck : (n : ℕ) (p : List ℕ) (d : RowDesc) → desc_loop n p d ≢ stuck
unfolding desc_loop
desc_loop-ne-stuck zero p d = λ e. cc
desc_loop-ne-stuck (suc n) p d = >>=-ne-stuck (take_string p) _ (take_string-ne-stuck p) (λ s e.
    >>=-ne-stuck (column_fields s.1) _ (column_fields-ne-stuck s.1)
      (λ f e'. desc_loop-ne-stuck n f.1 _))

decode_row_desc-ne-stuck : (p : List ℕ) → decode_row_desc p ≢ stuck
unfolding decode_row_desc
decode_row_desc-ne-stuck p =
    >>=-ne-stuck (take_u16 p) _ (take_u16-ne-stuck p) (λ n e. desc_loop-ne-stuck n.0 n.1 _)

pub decode_error-ne-stuck : (p : List ℕ) → decode_error p ≢ stuck
unfolding decode_error
decode_error-ne-stuck p = error_loop-ne-stuck (length p) p [] [] (omega arith)

module _ (fl : Floats) where
  take_value-ne-stuck :
      (l oid : ℕ) (fmt : Option ℕ) (p : List ℕ) → take_value fl l oid fmt p ≢ stuck
  take_value-ne-stuck l oid fmt p = elim (Bool-cases (leb (2 ^ 31) l)) [
    | inl e ↦ rw e (λ x. cc)
    | inr e ↦ rw e (>>=-ne-stuck (slice_from l p) _ (slice_from-ne-stuck l p) (λ r e' x. cc))
  ]

  row_loop-ne-stuck : (n i : ℕ) (p oids formats : List ℕ) → row_loop fl n i p oids formats ≢ stuck
  unfolding row_loop
  row_loop-ne-stuck zero i p oids formats = λ e. cc
  row_loop-ne-stuck (suc n) i p oids formats =
      >>=-ne-stuck (take_u32 p) _ (take_u32-ne-stuck p) (λ l e.
        >>=-ne-stuck (take_value fl l.0 (oid_at (get_elem? oids i)) (get_elem? formats i) l.1) _
          (take_value-ne-stuck l.0 (oid_at (get_elem? oids i)) (get_elem? formats i) l.1)
          (λ v e'.
            >>=-ok-ne-stuck (row_loop fl n (i + 1) v.1 oids formats) (λ vs. v.0 ∷ vs)
              (row_loop-ne-stuck n (i + 1) v.1 oids formats)))

  decode_data_row-ne-stuck : (p oids formats : List ℕ) → decode_data_row fl p oids formats ≢ stuck
  unfolding decode_data_row
  decode_data_row-ne-stuck p oids formats =
      >>=-ne-stuck (take_u16 p) _ (take_u16-ne-stuck p)
        (λ n e. row_loop-ne-stuck n.0 0 n.1 oids formats)

  pub apply_message-ne-stuck :
      (typ : ℕ) (payload : List ℕ) (s : Parsing fl) → apply_message fl typ payload s ≢ stuck
  unfolding apply_message
  apply_message-ne-stuck typ payload s = elim (Bool-cases (typ == b'T')) [
    | inl e ↦ rw e (
        >>=-ok-ne-stuck (decode_row_desc payload) (set_desc fl s)
          (decode_row_desc-ne-stuck payload))
    | inr t ↦ rw t (elim (Bool-cases (typ == b'D')) [
      | inl e ↦ rw e (
          >>=-ok-ne-stuck (decode_data_row fl payload s.oids s.formats) (add_row fl s)
            (decode_data_row-ne-stuck payload s.oids s.formats))
      | inr d ↦ rw d (elim (Bool-cases (typ == b'C')) [
        | inl e ↦ rw e (λ x. cc)
        | inr c ↦ rw c (elim (Bool-cases (typ == b'E')) [
          | inl e ↦ rw e (
              >>=-ok-ne-stuck (decode_error payload) (λ t. record s { perr = t })
                (decode_error-ne-stuck payload))
          | inr n ↦
              rw n (elim (Bool-cases (typ == b'Z')) [
                | inl e ↦ rw e (λ x. cc)
                | inr e ↦ rw e (λ x. cc)
              ])
        ])
      ])
    ])
  ]
