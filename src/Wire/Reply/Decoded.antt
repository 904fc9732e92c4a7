-- ===== src/Wire/Reply/Decoded.antt =====
-- `parse` of wire.go on the messages of a response.
use pglite_go.Base.{
  ℕ, suc, ◌+◌, ◌^◌, ◌<◌, ◌≡◌, refl, ap, ◌∙◌, true, false, Option, none, some, List, [], ◌∷◌, ◌++◌,
  length, drop, get_elem?, map, concat_map, All, ◌==◌, leb, arith, append_assoc, append-nil,
  length-append, take-append, drop-append,
}
use pglite_go.Base.Outcome.{Outcome, ok, ◌>>=◌}
use pglite_go.Wire.Bytes.{append_u16, take_u32, blank_spaces, last_field}
use pglite_go.Wire.Value.{Floats, Value}
use pglite_go.Wire.Frames.{Message, Fits, frames, bytes_of_u32}
use pglite_go.Wire.Response.{
  oid_at, decode_value, take_value, row_loop, decode_data_row, Parsing, apply_message, parse,
  starting, rows_of, affected_from_tag,
}
use pglite_go.Wire.Parse.{fold_messages, parse_loop-frames}
use pglite_go.Wire.Reply.{
  Column, Reply, description, row, complete, failure, ready, other, cell_code, message_of, IsCell,
  IsReply, failure_text, last_columns, last_tag, last_failure, last_status, first_column,
  cell_value, cell_values, all_rows, unless_failed, answer,
}
use pglite_go.Wire.Reply.Payloads.{
  word_u16, decode_row_desc-code, decode_error-code, trim_zeros-end, map_column, get_elem?-drop,
  drop-other_columns,
}

module _ (fl : Floats) where
  open fl use {F}

  decode_value-cell :
      (c : Option Column) (p : List ℕ)
      → decode_value fl
          (map_column (λ (c : Column). c.format) c)
          (oid_at (map_column (λ (c : Column). c.oid) c))
          p
        ≡ cell_value fl c (some p)
  decode_value-cell none p = refl
  decode_value-cell (some c) p = refl

  take_value-cell_code :
      {B : Type 0} (cs : List Column) (i : ℕ) (v : Option (List ℕ)) (rest : List ℕ)
      (k : Value F × List ℕ → Outcome B)
      → IsCell v
      → (take_u32 (cell_code v ++ rest) >>= λ l.
          take_value fl l.0
            (oid_at (get_elem? (map (λ (c : Column). c.oid) cs) i))
            (get_elem? (map (λ (c : Column). c.format) cs) i)
            l.1
          >>= k)
        ≡ k (cell_value fl (first_column (drop i cs)) v, rest)
  take_value-cell_code cs i none rest k h = refl
  take_value-cell_code cs i (some p) rest k h =
      rw
        (
          bytes_of_u32 (length p) (omega arith),
          positive,
          fits,
          take-append p rest,
          drop-append p rest,
          get_elem?-drop (λ (c : Column). c.oid) cs i,
          get_elem?-drop (λ (c : Column). c.format) cs i,
          decode_value-cell (first_column (drop i cs)) p,
        )
        refl
    where
      positive : leb (2 ^ 31) (length p) ≡ false
      positive = ground arith

      fits : leb (length p) (length (p ++ rest)) ≡ true
      fits = ground (arith, length-append p rest)

  row_loop-code :
      (vs : List (Option (List ℕ))) (i : ℕ) (cs : List Column)
      → All IsCell vs
      → row_loop fl
          (length vs)
          i
          (concat_map cell_code vs)
          (map (λ (c : Column). c.oid) cs)
          (map (λ (c : Column). c.format) cs)
        ≡ ok (cell_values fl (drop i cs) vs)
  unfolding row_loop cell_values
  row_loop-code [] i cs h = refl
  row_loop-code (v ∷ vs) i cs (h, hs) =
      let next : i + 1 ≡ suc i = omega arith in
      take_value-cell_code cs i v (concat_map cell_code vs) _ h
      ∙ rw (next, row_loop-code vs (suc i) cs hs, drop-other_columns i cs) refl

  decode_data_row-code :
      (vs : List (Option (List ℕ))) (cs : List Column)
      → length vs < 2 ^ 16
      → All IsCell vs
      → decode_data_row fl
          (append_u16 [] (length vs) ++ concat_map cell_code vs)
          (map (λ (c : Column). c.oid) cs)
          (map (λ (c : Column). c.format) cs)
        ≡ ok (cell_values fl cs vs)
  unfolding decode_data_row
  decode_data_row-code vs cs n h = rw (word_u16 (length vs) n) (row_loop-code vs 0 cs h)

  -- The variables of parse behind some messages.
  abbrev said : List Column → List (List (Value F)) → List ℕ → List ℕ → ℕ → Parsing fl
  said cs rows tag text tx = record {
    result = record {
      columns = map (λ (c : Column). c.name) cs;
      type_oids = map (λ (c : Column). c.oid) cs;
      rows = rows;
      command = tag;
      affected_rows = affected_from_tag tag;
    };
    perr = text;
    oids = map (λ (c : Column). c.oid) cs;
    formats = map (λ (c : Column). c.format) cs;
    tx = tx;
  }

  fold_messages-said :
      (rs : List Reply) (cs : List Column) (rows : List (List (Value F))) (tag text : List ℕ)
      (tx : ℕ)
      → All IsReply rs
      → fold_messages fl (map message_of rs) (said cs rows tag text tx)
        ≡ ok (
            said
              (last_columns cs rs)
              (rows ++ all_rows fl cs rs)
              (last_tag tag rs)
              (last_failure text rs)
              (last_status tx rs))
  unfolding fold_messages apply_message all_rows
  fold_messages-said [] cs rows tag text tx h = rw (append-nil rows) refl
  fold_messages-said (description ds ∷ rs) cs rows tag text tx (((n, k), fit), hs) =
      rw (decode_row_desc-code ds n k) (fold_messages-said rs ds rows tag text tx hs)
  fold_messages-said (row vs ∷ rs) cs rows tag text tx (((n, k), fit), hs) =
      rw (decode_data_row-code vs cs n k) (
        fold_messages-said rs cs (rows ++ (cell_values fl cs vs ∷ [])) tag text tx hs
        ∙ rw (append_assoc rows (cell_values fl cs vs ∷ []) (all_rows fl cs rs)) refl)
  fold_messages-said (complete t ∷ rs) cs rows tag text tx ((k, fit), hs) =
      rw (trim_zeros-end t k) (fold_messages-said rs cs rows t text tx hs)
  fold_messages-said (failure fs ∷ rs) cs rows tag text tx ((k, fit), hs) =
      rw (decode_error-code fs k) (fold_messages-said rs cs rows tag (failure_text fs) tx hs)
  fold_messages-said (ready status ∷ rs) cs rows tag text tx (k, hs) =
      fold_messages-said rs cs rows tag text status hs
  fold_messages-said (other typ p ∷ rs) cs rows tag text tx (((t, d, c, e, z), fit), hs) =
      rw (t, d, c, e, z) (fold_messages-said rs cs rows tag text tx hs)

  All-Fits :
      (rs : List Reply) → All IsReply rs → All (λ (m : Message). Fits m.1) (map message_of rs)
  All-Fits [] h = tt
  All-Fits (r ∷ rs) ((k, fit), hs) = (fit, All-Fits rs hs)

  rows_of-said :
      (cs : List Column) (rows : List (List (Value F))) (tag text : List ℕ) (tx : ℕ)
      → rows_of fl (said cs rows tag text tx)
        ≡ unless_failed fl text (said cs rows tag [] tx).result
  rows_of-said cs rows tag [] tx = refl
  rows_of-said cs rows tag (c ∷ text) tx =
      let more : (length (c ∷ text) == 0) ≡ false = ground arith in rw more refl

  nothing_said : (tx : ℕ) → starting fl tx ≡ said [] [] [] [] tx
  unfolding affected_from_tag blank_spaces last_field
  nothing_said tx = refl

  -- parse of a response, built as messages from its data, gives the error with the severity and
  -- the message of the last failure if they make a text, and else the names and types of the last
  -- row description, the rows, the last tag and the number of rows that affectedFromTag reads in
  -- it; each value of a row is NULL where it is marked, or is decoded by the type and the format
  -- of its column in the description in front of it (as a text where there is no such column); the
  -- transaction status is that of the last ready message, or the one from before; for fewer than
  -- 65536 columns and values, values shorter than 2^31 bytes, type and format numbers that fit
  -- their fields, names, tags and texts without zero bytes, field codes other than zero, other
  -- messages of any other type, and payloads of fewer than 2^32 - 5 bytes.
  pub parse-message_of :
      (tx : ℕ) (rs : List Reply)
      → All IsReply rs
      → parse fl tx (frames (map message_of rs)) ≡ ok (answer fl rs, last_status tx rs)
  unfolding parse
  parse-message_of tx rs h =
      let ms = map message_of rs in
      let all =
        parse_loop-frames fl (suc (length (frames ms))) ms (starting fl tx) (omega arith)
          (All-Fits rs h) in
      let folded : fold_messages fl ms (starting fl tx)
          ≡ ok (
              said (last_columns [] rs) (all_rows fl [] rs) (last_tag [] rs) (last_failure [] rs)
                (last_status tx rs)) =
        ap (fold_messages fl ms) (nothing_said tx) ∙ fold_messages-said rs [] [] [] [] tx h in
      rw (all, folded)
        (ap (λ r. ok (r, last_status tx rs))
          (rows_of-said (last_columns [] rs) (all_rows fl [] rs) (last_tag [] rs)
            (last_failure [] rs) (last_status tx rs)))
