-- ===== src/Wire/Message.antt =====
-- The message builders of wire.go.
use pglite_go.Base.{
  ℕ, ◌+◌, ◌%◌, ◌^◌, Bool, List, [], ◌∷◌, ◌++◌, length, map, foldl, codes, if◌then◌else◌, ◌==◌, ◌||◌,
}
use pglite_go.Wire.Bytes.{append_u16, append_u32}

-- `uint16(len(x))` and `uint32(len(x))`
abbrev pub len16 {ℓ} : {A : Type ℓ} → List A → ℕ
len16 xs = length xs % 2 ^ 16

unfoldable pub frame : ℕ → List ℕ → List ℕ
frame typ payload = append_u32 (typ ∷ []) ((length payload + 4) % 2 ^ 32) ++ payload

unfoldable pub startup_message : List ℕ → List ℕ → List ℕ
startup_message user database =
    let body =
      append_u32 [] 196608
      ++ (codes "user" ++ (0 ∷ []))
      ++ (user ++ (0 ∷ []))
      ++ (codes "database" ++ (0 ∷ []))
      ++ (database ++ (0 ∷ []))
      ++ (0 ∷ []) in
    append_u32 [] ((length body + 4) % 2 ^ 32) ++ body

unfoldable pub query_message : List ℕ → List ℕ
query_message sql = frame b'Q' (sql ++ (0 ∷ []))

unfoldable pub parse_message : List ℕ → List ℕ
parse_message sql = frame b'P' (append_u16 ((0 ∷ []) ++ (sql ++ (0 ∷ []))) 0)

-- The loop over the parameters; a parameter with no entry in `isNull` is not NULL.
unfoldable pub bind_params : List ℕ → List (List ℕ) → List Bool → List ℕ
bind_params b [] nulls = b
bind_params b (p ∷ ps) [] = bind_params (append_u32 b (length p % 2 ^ 32) ++ p) ps []
bind_params b (p ∷ ps) (is_null ∷ nulls) =
    bind_params (if is_null then append_u32 b 0xFFFFFFFF else append_u32 b (length p % 2 ^ 32) ++ p)
      ps nulls

unfoldable pub bind_message : List (List ℕ) → List Bool → List ℕ → List ℕ
bind_message params is_null formats =
    let start = append_u16 (append_u16 (0 ∷ 0 ∷ []) 0) (len16 params) in
    frame b'B'
      (foldl append_u16 (append_u16 (bind_params start params is_null) (len16 formats)) formats)

unfoldable pub binary_oid : ℕ → Bool
binary_oid oid =
    oid == 16
    || oid == 17
    || oid == 20
    || oid == 21
    || oid == 23
    || oid == 26
    || oid == 700
    || oid == 701

abbrev pub result_format : ℕ → ℕ
result_format oid = if binary_oid oid then 1 else 0

unfoldable pub result_formats : List ℕ → List ℕ
result_formats oids = map result_format oids

unfoldable pub describe_statement_message : List ℕ
describe_statement_message = frame b'D' (b'S' ∷ 0 ∷ [])

unfoldable pub describe_portal_message : List ℕ
describe_portal_message = frame b'D' (b'P' ∷ 0 ∷ [])

unfoldable pub execute_message : List ℕ
execute_message = frame b'E' (0 ∷ 0 ∷ 0 ∷ 0 ∷ 0 ∷ [])

unfoldable pub sync_message : List ℕ
sync_message = frame b'S' []
