-- ===== src/Emscripten/Patch/Entry.antt =====
-- The imports as data, the bytes of an import section, and what the patch means to change.
use pglite_go.Base.{
  ℕ, ◌^◌, ◌<◌, List, [], ◌∷◌, ◌++◌, length, concat_map, if◌then◌else◌, codes, bytes_eq,
}
use pglite_go.Emscripten.Codec.{encode_leb128_u, encode_name}

-- Flags 0, 1, 2 and 3, the last two for a memory that threads share.
pub data Limits : Type 0 where
  least : ℕ → Limits
  between : ℕ → ℕ → Limits
  shared : ℕ → Limits
  shared_between : ℕ → ℕ → Limits

pub data Desc : Type 0 where
  func : ℕ → Desc
  table : ℕ → Limits → Desc
  memory : Limits → Desc
  global : ℕ → ℕ → Desc

pub record Entry : Type 0 where
  pub mod_name : List ℕ
  pub field_name : List ℕ
  pub desc : Desc

abbrev pub limits_code : Limits → List ℕ
limits_code (least n) = (0 ∷ []) ++ encode_leb128_u n
limits_code (between n m) = (1 ∷ []) ++ (encode_leb128_u n ++ encode_leb128_u m)
limits_code (shared n) = (2 ∷ []) ++ encode_leb128_u n
limits_code (shared_between n m) = (3 ∷ []) ++ (encode_leb128_u n ++ encode_leb128_u m)

abbrev pub kind_of : Desc → ℕ
kind_of (func t) = 0
kind_of (table e l) = 1
kind_of (memory l) = 2
kind_of (global t m) = 3

abbrev pub desc_code : Desc → List ℕ
desc_code (func t) = encode_leb128_u t
desc_code (table e l) = (e ∷ []) ++ limits_code l
desc_code (memory l) = limits_code l
desc_code (global t m) = (t ∷ []) ++ (m ∷ [])

abbrev pub entry_code : Entry → List ℕ
entry_code e =
    encode_name e.mod_name
    ++ (encode_name e.field_name ++ ((kind_of e.desc ∷ []) ++ desc_code e.desc))

abbrev pub imports_code : List Entry → List ℕ
imports_code es = encode_leb128_u (length es) ++ concat_map entry_code es

-- A global, memory or table of "env" comes from "env.extras" instead; nothing else changes.
abbrev pub redirected : Desc → List ℕ → List ℕ
redirected (func t) s = s
redirected (table e l) s = if bytes_eq s (codes "env") then codes "env.extras" else s
redirected (memory l) s = if bytes_eq s (codes "env") then codes "env.extras" else s
redirected (global t m) s = if bytes_eq s (codes "env") then codes "env.extras" else s

abbrev pub redirect : Entry → Entry
redirect e = record e { mod_name = redirected e.desc e.mod_name }

-- The patch does not read the maximum of flag 3.
abbrev pub IsLimits : Limits → Type 0
IsLimits (least n) = n < 2 ^ 64
IsLimits (between n m) = (n < 2 ^ 64) × (m < 2 ^ 64)
IsLimits (shared n) = n < 2 ^ 64
IsLimits (shared_between n m) = ⊥

abbrev pub IsDesc : Desc → Type 0
IsDesc (func t) = t < 2 ^ 64
IsDesc (table e l) = IsLimits l
IsDesc (memory l) = IsLimits l
IsDesc (global t m) = Unit {0}

-- The numbers fit a uint64, and no limits have flag 3.
abbrev pub IsEntry : Entry → Type 0
IsEntry e = (length e.mod_name < 2 ^ 64) × (length e.field_name < 2 ^ 64) × IsDesc e.desc
