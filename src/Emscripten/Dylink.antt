-- ===== src/Emscripten/Dylink.antt =====
-- ParseDylink of emscripten/dylink.go.
--
-- Its position never passes the end of the module, so the state is the list of unread bytes.
pub mod Info
use pglite_go.Base.{
  ℕ, ◌+◌, List, [], ◌∷◌, ◌++◌, length, take, drop, ltb, ◌==◌, if◌then◌else◌, not, ◌||◌, codes,
  bytes_eq,
}
use pglite_go.Base.Outcome.{Outcome, ok, err, panic, stuck, ◌>>=◌, not_wasm, no_dylink, truncated}
use pglite_go.Leb.{uleb}

-- `uleb`: it reports an input that ends early.
abbrev pub or_truncated : Outcome (ℕ × List ℕ) → Outcome (ℕ × List ℕ)
or_truncated panic = err truncated
or_truncated (ok r) = ok r
or_truncated (err e) = err e
or_truncated stuck = stuck

unfoldable pub dylink_uleb : List ℕ → Outcome (ℕ × List ℕ)
dylink_uleb xs = or_truncated (uleb 32 xs 0 0)

-- The four numbers of the WASM_DYLINK_MEM_INFO subsection.
unfoldable pub mem_info : List ℕ → Outcome (ℕ × ℕ)
mem_info xs = do
  sub ← dylink_uleb xs
  mem_size ← dylink_uleb sub.1
  mem_align ← dylink_uleb mem_size.1
  table_size ← dylink_uleb mem_align.1
  ok (mem_size.0, table_size.0)

unfoldable pub dylink_name : ℕ → List ℕ → Outcome (ℕ × ℕ)
dylink_name name_len xs =
    if ltb (length xs) name_len
    then err truncated
    else if bytes_eq (take name_len xs) (codes "dylink.0")
    then elim (drop name_len xs) [
      | [] ↦ err no_dylink
      | id ∷ rest ↦ if id == 1 then mem_info rest else err no_dylink
    ]
    else err no_dylink

unfoldable pub first_section : List ℕ → Outcome (ℕ × ℕ)
first_section [] = panic
first_section (id ∷ xs) =
    if id == 0
    then (do
      size ← dylink_uleb xs
      name_len ← dylink_uleb size.1
      dylink_name name_len.0 name_len.1)
    else err no_dylink

unfoldable pub parse_dylink : List ℕ → Outcome (ℕ × ℕ)
parse_dylink wasm =
    if ltb (length wasm) 8 || not (bytes_eq (take 4 wasm) (0x00 ∷ 0x61 ∷ 0x73 ∷ 0x6d ∷ []))
    then err not_wasm
    else first_section (drop 8 wasm)
