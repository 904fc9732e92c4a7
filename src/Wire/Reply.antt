-- ===== src/Wire/Reply.antt =====
-- A server's response as data, its messages, and what they say, for the decoding of wire.go. What
-- they say is read off the data, from its front, apart from the decoder.
pub mod Payloads
pub mod Decoded
use pglite_go.Base.{
  ℕ, ◌≡◌, ◌<◌, ◌^◌, Option, none, some, List, [], ◌∷◌, ◌++◌, length, map, concat_map, All, false,
  ◌==◌, if◌then◌else◌, codes,
}
use pglite_go.Base.Outcome.{Outcome, ok, err, server}
use pglite_go.Wire.Bytes.{append_u16, append_u32}
use pglite_go.Wire.Value.{Floats, Value, null, decode_text, decode_binary}
use pglite_go.Wire.Frames.{Message, Fits}
use pglite_go.Wire.Response.{Rows, affected_from_tag}

-- A column of a row description, with the server's fields in their order.
pub record Column : Type 0 where
  pub name : List ℕ
  pub table : ℕ
  pub number : ℕ
  pub oid : ℕ
  pub type_size : ℕ
  pub modifier : ℕ
  pub format : ℕ

-- The messages that parse takes notice of, and any other. A failure has fields of a code and a
-- text each; a cell of a row may be NULL.
pub data Reply : Type 0 where
  description : List Column → Reply
  row : List (Option (List ℕ)) → Reply
  complete : List ℕ → Reply
  failure : List (ℕ × List ℕ) → Reply
  ready : ℕ → Reply
  other : ℕ → List ℕ → Reply

abbrev pub numbers_code : Column → List ℕ
numbers_code c =
    append_u32 [] c.table
    ++ (append_u16 [] c.number
        ++ (append_u32 [] c.oid
            ++ (append_u16 [] c.type_size ++ (append_u32 [] c.modifier ++ append_u16 [] c.format))))

abbrev pub column_code : Column → List ℕ
column_code c = c.name ++ (0 ∷ numbers_code c)

abbrev pub cell_code : Option (List ℕ) → List ℕ
cell_code none = append_u32 [] 0xFFFFFFFF
cell_code (some p) = append_u32 [] (length p) ++ p

abbrev pub field_code : ℕ × List ℕ → List ℕ
field_code (code, text) = code ∷ text ++ (0 ∷ [])

abbrev pub message_of : Reply → Message
message_of (description cs) = (b'T', append_u16 [] (length cs) ++ concat_map column_code cs)
message_of (row vs) = (b'D', append_u16 [] (length vs) ++ concat_map cell_code vs)
message_of (complete tag) = (b'C', tag ++ (0 ∷ []))
message_of (failure fs) = (b'E', concat_map field_code fs ++ (0 ∷ []))
message_of (ready status) = (b'Z', status ∷ [])
message_of (other typ p) = (typ, p)

abbrev pub IsString : List ℕ → Type 0
IsString t = All (λ b. (b == 0) ≡ false) t

abbrev pub IsColumn : Column → Type 0
IsColumn c = IsString c.name × (c.oid < 2 ^ 32) × (c.format < 2 ^ 16)

abbrev pub IsCell : Option (List ℕ) → Type 0
IsCell none = Unit {0}
IsCell (some p) = length p < 2 ^ 31

abbrev pub IsField : ℕ × List ℕ → Type 0
IsField (code, text) = ((code == 0) ≡ false) × IsString text

-- The counts and lengths fit their fields, names, texts and tags have no zero byte, and the payload
-- fits a message.
abbrev HasForm : Reply → Type 0
HasForm (description cs) = (length cs < 2 ^ 16) × All IsColumn cs
HasForm (row vs) = (length vs < 2 ^ 16) × All IsCell vs
HasForm (complete tag) = IsString tag
HasForm (failure fs) = All IsField fs
HasForm (ready status) = Unit {0}
HasForm (other typ p) =
    ((typ == b'T') ≡ false)
    × ((typ == b'D') ≡ false)
    × ((typ == b'C') ≡ false)
    × ((typ == b'E') ≡ false)
    × ((typ == b'Z') ≡ false)

abbrev pub IsReply : Reply → Type 0
IsReply r = HasForm r × Fits (message_of r).1

-- The text of the last field with this code, or the given one.
abbrev pub field_or : ℕ → List ℕ → List (ℕ × List ℕ) → List ℕ
field_or code text [] = text
field_or code text ((c, u) ∷ fs) = field_or code (if c == code then u else text) fs

abbrev pub behind_severity : List ℕ → List ℕ → List ℕ
behind_severity [] text = text
behind_severity (c ∷ severity) text = c ∷ severity ++ (b':' ∷ b' ' ∷ text)

-- The severity and the message of a failure.
abbrev pub failure_text : List (ℕ × List ℕ) → List ℕ
failure_text fs = behind_severity (field_or b'S' [] fs) (field_or b'M' [] fs)

-- The last of each kind in a response, or the given one.
abbrev pub last_columns : List Column → List Reply → List Column
last_columns cs [] = cs
last_columns cs (description ds ∷ rs) = last_columns ds rs
last_columns cs (row vs ∷ rs) = last_columns cs rs
last_columns cs (complete tag ∷ rs) = last_columns cs rs
last_columns cs (failure fs ∷ rs) = last_columns cs rs
last_columns cs (ready status ∷ rs) = last_columns cs rs
last_columns cs (other typ p ∷ rs) = last_columns cs rs

abbrev pub last_tag : List ℕ → List Reply → List ℕ
last_tag t [] = t
last_tag t (description ds ∷ rs) = last_tag t rs
last_tag t (row vs ∷ rs) = last_tag t rs
last_tag t (complete tag ∷ rs) = last_tag tag rs
last_tag t (failure fs ∷ rs) = last_tag t rs
last_tag t (ready status ∷ rs) = last_tag t rs
last_tag t (other typ p ∷ rs) = last_tag t rs

abbrev pub last_failure : List ℕ → List Reply → List ℕ
last_failure t [] = t
last_failure t (description ds ∷ rs) = last_failure t rs
last_failure t (row vs ∷ rs) = last_failure t rs
last_failure t (complete tag ∷ rs) = last_failure t rs
last_failure t (failure fs ∷ rs) = last_failure (failure_text fs) rs
last_failure t (ready status ∷ rs) = last_failure t rs
last_failure t (other typ p ∷ rs) = last_failure t rs

abbrev pub last_status : ℕ → List Reply → ℕ
last_status s [] = s
last_status s (description ds ∷ rs) = last_status s rs
last_status s (row vs ∷ rs) = last_status s rs
last_status s (complete tag ∷ rs) = last_status s rs
last_status s (failure fs ∷ rs) = last_status s rs
last_status s (ready status ∷ rs) = last_status status rs
last_status s (other typ p ∷ rs) = last_status s rs

abbrev pub first_column : List Column → Option Column
first_column [] = none
first_column (c ∷ cs) = some c

abbrev pub other_columns : List Column → List Column
other_columns [] = []
other_columns (c ∷ cs) = cs

module _ (fl : Floats) where
  open fl use {F}

  -- A value by the type and the format of its column; a value without a column is a text.
  abbrev pub cell_value : Option Column → Option (List ℕ) → Value F
  cell_value c none = null
  cell_value none (some p) = decode_text fl 0 p
  cell_value (some c) (some p) =
      if c.format == 1 then decode_binary fl c.oid p else decode_text fl c.oid p

  unfoldable pub cell_values : List Column → List (Option (List ℕ)) → List (Value F)
  cell_values cs [] = []
  cell_values cs (v ∷ vs) = cell_value (first_column cs) v ∷ cell_values (other_columns cs) vs

  -- The rows, each by the description in front of it.
  unfoldable pub all_rows : List Column → List Reply → List (List (Value F))
  all_rows cs [] = []
  all_rows cs (description ds ∷ rs) = all_rows ds rs
  all_rows cs (row vs ∷ rs) = cell_values cs vs ∷ all_rows cs rs
  all_rows cs (complete tag ∷ rs) = all_rows cs rs
  all_rows cs (failure fs ∷ rs) = all_rows cs rs
  all_rows cs (ready status ∷ rs) = all_rows cs rs
  all_rows cs (other typ p ∷ rs) = all_rows cs rs

  abbrev rows_said : List Reply → Rows fl
  rows_said rs = record {
    columns = map (λ (c : Column). c.name) (last_columns [] rs);
    type_oids = map (λ (c : Column). c.oid) (last_columns [] rs);
    rows = all_rows [] rs;
    command = last_tag [] rs;
    affected_rows = affected_from_tag (last_tag [] rs);
  }

  abbrev pub unless_failed : List ℕ → Rows fl → Outcome (Rows fl)
  unless_failed [] r = ok r
  unless_failed (c ∷ text) r = err (server (c ∷ text))

  -- What a response says: the text of its last failure, if there is one, or its rows.
  abbrev pub answer : List Reply → Outcome (Rows fl)
  answer rs = unless_failed (last_failure [] rs) (rows_said rs)
