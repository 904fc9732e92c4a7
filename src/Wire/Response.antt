-- ===== src/Wire/Response.antt =====
-- The response decoding of wire.go: `decodeRowDesc`, `decodeDataRow`, `decodeError`, `parse` and
-- `describeResultOIDs`.
use pglite_go.Base.{
  ℕ, zero, suc, ◌+◌, ◌-◌, ◌*◌, ◌%◌, ◌^◌, Option, none, some, List, [], ◌∷◌, ◌++◌, ltb, leb, ◌==◌,
  if◌then◌else◌, length, take, drop, get_elem?, codes,
}
use pglite_go.Base.Outcome.{Outcome, ok, err, panic, stuck, server, ◌>>=◌}
use pglite_go.Wire.Bytes.{
  ℤ, pos, take_u16, take_u32, slice_from, take_string, trim_zeros, blank_spaces, last_field,
  parse_int,
}
use pglite_go.Wire.Value.{Floats, Value, null, decode_text, decode_binary}

pub record RowDesc : Type 0 where
  pub names : List (List ℕ)
  pub oids : List ℕ
  pub formats : List ℕ

-- tableOID(4) colNo(2) typeOID(4) typLen(2) typMod(4) format(2); a field shorter than its 18
-- bytes panics, at the last slice if not before.
abbrev pub column_fields : List ℕ → Outcome ((ℕ × ℕ) × List ℕ)
column_fields p = do
  rest ← slice_from 18 p
  oid ← take_u32 (drop 6 p)
  fmt ← take_u16 (drop 16 p)
  ok ((oid.0, fmt.0), rest)

unfoldable pub desc_loop : ℕ → List ℕ → RowDesc → Outcome RowDesc
desc_loop zero p d = ok d
desc_loop (suc n) p d = do
  s ← take_string p
  f ← column_fields s.1
  desc_loop n f.1 (record {
    names = d.names ++ (s.0 ∷ []);
    oids = d.oids ++ (f.0.0 ∷ []);
    formats = d.formats ++ (f.0.1 ∷ []);
  })

unfoldable pub decode_row_desc : List ℕ → Outcome RowDesc
decode_row_desc p = do
  num ← take_u16 p
  desc_loop num.0 num.1 (record { names = []; oids = []; formats = [] })

-- decodeError's two texts, and the one that they make.
abbrev pub error_text : List ℕ → List ℕ → List ℕ
error_text [] msg = msg
error_text (s ∷ sev) msg = (s ∷ sev) ++ (codes ": " ++ msg)

-- Each round takes a byte at least.
unfoldable pub error_loop : ℕ → List ℕ → List ℕ → List ℕ → Outcome (List ℕ)
error_loop fuel [] sev msg = ok (error_text sev msg)
error_loop zero (code ∷ p) sev msg = stuck
error_loop (suc fuel) (code ∷ p) sev msg =
    let rest = error_loop fuel in
    if code == 0
    then ok (error_text sev msg)
    else take_string p >>= λ s.
        rest s.1 (if code == b'S' then s.0 else sev) (if code == b'M' then s.0 else msg)

unfoldable pub decode_error : List ℕ → Outcome (List ℕ)
decode_error p = error_loop (length p) p [] []

abbrev pub int_or_zero : Option ℤ → ℤ
int_or_zero none = pos 0
int_or_zero (some n) = n

abbrev pub affected_of : Option (List ℕ) → ℤ
affected_of none = pos 0
affected_of (some f) = int_or_zero (parse_int f)

unfoldable pub affected_from_tag : List ℕ → ℤ
affected_from_tag tag = affected_of (last_field none [] (blank_spaces 0 tag))

-- The message at the front of the buffer. The loops stop at one that is cut short. The bounds of
-- the payload are a uint32, 1+n, that wraps: a length below 4 or of 2 ^ 32 - 1 panics.
pub data Next : Type 0 where
  stop : Next
  message : ℕ → List ℕ → List ℕ → Next
  bad_length : Next

abbrev pub split_at : ℕ → ℕ → List ℕ → Next
split_at typ n p =
    let last = (n + 1) % 2 ^ 32 in
    if ltb (length p + 4) n
    then stop
    else if ltb last 5
    then bad_length
    else message typ (take (last - 5) p) (drop (last - 5) p)

unfoldable pub next_message : List ℕ → Next
next_message (typ ∷ a ∷ b ∷ c ∷ d ∷ p) = split_at typ (a * 2 ^ 24 + b * 2 ^ 16 + c * 2 ^ 8 + d) p
next_message buf = stop

abbrev pub desc_oids : Outcome RowDesc → Outcome (List ℕ)
desc_oids d = do r ← d; ok r.oids

-- The body of the loop of `describeResultOIDs`, with the rounds that follow it.
abbrev pub describe_round :
    Next
    → List ℕ
    → List ℕ
    → (List ℕ → List ℕ → List ℕ → Outcome (List ℕ × List ℕ))
    → Outcome (List ℕ × List ℕ)
describe_round stop oids text rest = ok (oids, text)
describe_round bad_length oids text rest = panic
describe_round (message typ payload buf) oids text rest =
    if typ == b'T'
    then (desc_oids (decode_row_desc payload) >>= λ o. rest buf o text)
    else if typ == b'E'
    then (decode_error payload >>= λ t. rest buf oids t)
    else rest buf oids text

-- Each round takes five bytes at least.
unfoldable pub describe_loop : ℕ → List ℕ → List ℕ → List ℕ → Outcome (List ℕ × List ℕ)
describe_loop zero buf oids text = stuck
describe_loop (suc fuel) buf oids text =
    describe_round (next_message buf) oids text (describe_loop fuel)

unfoldable pub describe_result_oids : List ℕ → Outcome (List ℕ × List ℕ)
describe_result_oids buf = describe_loop (suc (length buf)) buf [] []

abbrev pub oid_at : Option ℕ → ℕ
oid_at none = 0
oid_at (some o) = o

module _ (fl : Floats) where
  open fl use {F}

  pub record Rows : Type 0 where
    pub columns : List (List ℕ)
    pub type_oids : List ℕ
    pub rows : List (List (Value F))
    pub command : List ℕ
    pub affected_rows : ℤ

  abbrev pub decode_value : Option ℕ → ℕ → List ℕ → Value F
  decode_value none oid raw = decode_text fl oid raw
  decode_value (some f) oid raw =
      if f == 1 then decode_binary fl oid raw else decode_text fl oid raw

  -- A length is an int32: from 2 ^ 31 on it is negative, and the value is NULL.
  abbrev pub take_value : ℕ → ℕ → Option ℕ → List ℕ → Outcome (Value F × List ℕ)
  take_value l oid fmt p =
      if leb (2 ^ 31) l
      then ok (null, p)
      else (do rest ← slice_from l p; ok (decode_value fmt oid (take l p), rest))

  unfoldable pub row_loop : ℕ → ℕ → List ℕ → List ℕ → List ℕ → Outcome (List (Value F))
  row_loop zero i p oids formats = ok []
  row_loop (suc n) i p oids formats = do
    l ← take_u32 p
    v ← take_value l.0 (oid_at (get_elem? oids i)) (get_elem? formats i) l.1
    vs ← row_loop n (i + 1) v.1 oids formats
    ok (v.0 ∷ vs)

  unfoldable pub decode_data_row : List ℕ → List ℕ → List ℕ → Outcome (List (Value F))
  decode_data_row p oids formats = do num ← take_u16 p; row_loop num.0 0 num.1 oids formats

  -- The variables of `parse`, with the transaction status of the connection.
  pub record Parsing : Type 0 where
    pub result : Rows
    pub perr : List ℕ
    pub oids : List ℕ
    pub formats : List ℕ
    pub tx : ℕ

  abbrev pub set_desc : Parsing → RowDesc → Parsing
  set_desc s d = record s {
    result = record (s.result) { columns = d.names; type_oids = d.oids };
    oids = d.oids;
    formats = d.formats;
  }

  abbrev pub add_row : Parsing → List (Value F) → Parsing
  add_row s r = record s { result = record (s.result) { rows = s.result.rows ++ (r ∷ []) } }

  abbrev pub set_tag : Parsing → List ℕ → Parsing
  set_tag s tag = record s {
    result = record (s.result) { command = tag; affected_rows = affected_from_tag tag };
  }

  abbrev pub set_tx : Parsing → List ℕ → Parsing
  set_tx s [] = s
  set_tx s (b ∷ payload) = record s { tx = b }

  -- The switch of `parse` on the type of a message.
  unfoldable pub apply_message : ℕ → List ℕ → Parsing → Outcome Parsing
  apply_message typ payload s =
      if typ == b'T'
      then (decode_row_desc payload >>= λ d. ok (set_desc s d))
      else if typ == b'D'
      then (decode_data_row payload s.oids s.formats >>= λ r. ok (add_row s r))
      else if typ == b'C'
      then ok (set_tag s (trim_zeros payload))
      else if typ == b'E'
      then (decode_error payload >>= λ t. ok (record s { perr = t }))
      else if typ == b'Z'
      then ok (set_tx s payload)
      else ok s

  -- The body of the loop of `parse`, with the rounds that follow it.
  abbrev pub parse_round : Next → Parsing → (List ℕ → Parsing → Outcome Parsing) → Outcome Parsing
  parse_round stop s rest = ok s
  parse_round bad_length s rest = panic
  parse_round (message typ payload buf) s rest = apply_message typ payload s >>= λ s'. rest buf s'

  -- Each round takes five bytes at least.
  unfoldable pub parse_loop : ℕ → List ℕ → Parsing → Outcome Parsing
  parse_loop zero buf s = stuck
  parse_loop (suc fuel) buf s = parse_round (next_message buf) s (parse_loop fuel)

  abbrev pub no_rows : Rows
  no_rows = record { columns = []; type_oids = []; rows = []; command = []; affected_rows = pos 0 }

  abbrev pub starting : ℕ → Parsing
  starting tx = record { result = no_rows; perr = []; oids = []; formats = []; tx = tx }

  -- Go's (rows, error) pair.
  abbrev pub rows_of : Parsing → Outcome Rows
  rows_of s = if length s.perr == 0 then ok s.result else err (server s.perr)

  -- `parse`, with the transaction status that it leaves in the connection.
  unfoldable pub parse : ℕ → List ℕ → Outcome (Outcome Rows × ℕ)
  parse tx buf = do s ← parse_loop (suc (length buf)) buf (starting tx); ok (rows_of s, s.tx)
