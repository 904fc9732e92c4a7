-- ===== src/Wasm/RoundTrip/Imports.antt =====
-- The import section.
use pglite_go.Base.{
  ℕ, ◌^◌, ◌<◌, ◌≡◌, sym, ◌∙◌, Bool, true, false, List, [], ◌∷◌, ◌++◌, foldl, All, append_assoc,
  arith, if◌then◌else◌, ◌==◌, subst, append-nil, zero, suc, concat_map,
}
use pglite_go.Cursor.{◌>>=◌, pure, byte1}
use pglite_go.Cursor.Reads.{Reads, Reads-bind, Reads-map, Reads-pure, Reads-byte1}
use pglite_go.Leb.{put_u32, u32_len}
use pglite_go.Leb.Unsigned.{u32_code, u32-u32_code, put_u32-eq-append}
use pglite_go.Leb.Vectors.{
  IsShort, Reads-vec, name-name_code, name_code, put_name-eq-append, All-map,
}
use pglite_go.Wasm.Model.{Import, no_import, Module}
use pglite_go.Wasm.Decode.{
  Limits, read_limits, import_desc, import_entry, parse_imports, with_table, with_mem,
}
use pglite_go.Wasm.Encode.{encode_limits, encode_import, encode_imports}

abbrev pub IsU32 : ℕ → Type 0
IsU32 v = v < 2 ^ 32

-- What limits keep: a maximum only where there is one.
abbrev pub limits : ℕ → ℕ → Bool → Bool → Limits
limits min max has_max shared = (min, (if has_max then max else 0), has_max, shared)

-- The flag byte, the minimum and, where there is one, the maximum.
abbrev pub limits_code : ℕ → ℕ → Bool → Bool → List ℕ
limits_code min max true true = 0x03 ∷ u32_code min ++ u32_code max
limits_code min max true false = 0x01 ∷ u32_code min ++ u32_code max
limits_code min max false true = 0x02 ∷ u32_code min ++ []
limits_code min max false false = 0x00 ∷ u32_code min ++ []

encode_limits-eq-append :
    (e : List ℕ) (min max : ℕ) (has_max shared : Bool)
    → encode_limits e min max has_max shared ≡ e ++ limits_code min max has_max shared
unfolding encode_limits
encode_limits-eq-append e min max true true = simp (put_u32-eq-append, append_assoc)
encode_limits-eq-append e min max true false = simp (put_u32-eq-append, append_assoc)
encode_limits-eq-append e min max false true = simp (put_u32-eq-append, append_assoc, append-nil)
encode_limits-eq-append e min max false false = simp (put_u32-eq-append, append_assoc, append-nil)

read_limits-limits_code :
    (min max : ℕ) (has_max shared : Bool)
    → IsU32 min
    → IsU32 max
    → Reads read_limits (limits_code min max has_max shared) (limits min max has_max shared)
unfolding read_limits
read_limits-limits_code min max true true hm hx =
    Reads-bind _ (Reads-byte1 3)
      (Reads-bind _ (u32-u32_code min hm) (Reads-map _ (u32-u32_code max hx) (Reads-pure _)))
read_limits-limits_code min max true false hm hx =
    Reads-bind _ (Reads-byte1 1)
      (Reads-bind _ (u32-u32_code min hm) (Reads-map _ (u32-u32_code max hx) (Reads-pure _)))
read_limits-limits_code min max false true hm hx =
    Reads-bind _ (Reads-byte1 2) (Reads-bind _ (u32-u32_code min hm) (Reads-pure _))
read_limits-limits_code min max false false hm hx =
    Reads-bind _ (Reads-byte1 0) (Reads-bind _ (u32-u32_code min hm) (Reads-pure _))

abbrev bit : Bool → ℕ
bit b = if b then 1 else 0

-- What an entry of each kind holds behind its kind byte; there are no other kinds.
abbrev desc_code : ℕ → Import → List ℕ
desc_code zero imp = u32_code imp.type_idx
desc_code (suc zero) imp = imp.t_elem ∷ limits_code imp.t_lim_min imp.t_lim_max imp.t_has_max false
desc_code (suc (suc zero)) imp = limits_code imp.m_lim_min imp.m_lim_max imp.m_has_max imp.m_shared
desc_code (suc (suc (suc zero))) imp = imp.g_type ∷ bit imp.g_mutable ∷ []
desc_code _ imp = []

-- The fields that an entry of each kind keeps; the others are those of a new `Import`.
abbrev keep : ℕ → Import → Import
keep zero imp = record no_import { type_idx = imp.type_idx }
keep (suc zero) imp =
    with_table no_import imp.t_elem (limits imp.t_lim_min imp.t_lim_max imp.t_has_max false)
keep (suc (suc zero)) imp =
    with_mem no_import (limits imp.m_lim_min imp.m_lim_max imp.m_has_max imp.m_shared)
keep (suc (suc (suc zero))) imp = record no_import {
  g_type = imp.g_type;
  g_mutable = imp.g_mutable;
}
keep _ imp = no_import

abbrev pub canonical : Import → Import
canonical imp = record (keep imp.kind imp) {
  module_name = imp.module_name;
  name = imp.name;
  kind = imp.kind;
}

pub record IsImport (imp : Import) : Type 0 where
  pub is_canonical : canonical imp ≡ imp
  pub known_kind : imp.kind < 4
  pub short_module : IsShort imp.module_name
  pub short_name : IsShort imp.name
  pub type_idx_fits : IsU32 imp.type_idx
  pub t_min_fits : IsU32 imp.t_lim_min
  pub t_max_fits : IsU32 imp.t_lim_max
  pub m_min_fits : IsU32 imp.m_lim_min
  pub m_max_fits : IsU32 imp.m_lim_max

abbrev pub import_code : Import → List ℕ
import_code imp =
    name_code imp.module_name ++ (name_code imp.name ++ (imp.kind ∷ desc_code imp.kind imp))

abbrev started : List ℕ → List ℕ → ℕ → Import
started mo na k = record no_import { module_name = mo; name = na; kind = k }

import_desc-desc_code :
    (k : ℕ) (imp : Import)
    → k < 4
    → IsImport imp
    → Reads
        (import_desc (started imp.module_name imp.name k))
        (desc_code k imp)
        (record (keep k imp) { module_name = imp.module_name; name = imp.name; kind = k })
unfolding import_desc
import_desc-desc_code zero imp h i =
    Reads-map _ (u32-u32_code imp.type_idx i.type_idx_fits) (Reads-pure _)
import_desc-desc_code (suc zero) imp h i = Reads-bind _ (Reads-byte1 imp.t_elem) (
    Reads-map _ (read_limits-limits_code _ _ imp.t_has_max false i.t_min_fits i.t_max_fits)
      (Reads-pure _))
import_desc-desc_code (suc (suc zero)) imp h i =
    Reads-map _ (read_limits-limits_code _ _ imp.m_has_max imp.m_shared i.m_min_fits i.m_max_fits)
      (Reads-pure _)
import_desc-desc_code (suc (suc (suc zero))) imp h i =
    Reads-bind _ (Reads-byte1 imp.g_type) (mutability imp.g_mutable)
  where
    mutability :
        (b : Bool)
        → Reads
            (byte1 >>= λ mu. pure (record (started imp.module_name imp.name 3) {
              g_type = imp.g_type;
              g_mutable = mu == 1;
            }))
            (bit b ∷ [])
            (record (started imp.module_name imp.name 3) { g_type = imp.g_type; g_mutable = b })
    mutability true = Reads-map _ (Reads-byte1 1) (Reads-pure _)
    mutability false = Reads-map _ (Reads-byte1 0) (Reads-pure _)
import_desc-desc_code (suc (suc (suc (suc k)))) imp h i = absurd (omega arith)

pub import_entry-import_code :
    (imp : Import) → IsImport imp → Reads import_entry (import_code imp) imp
unfolding import_entry
import_entry-import_code imp i =
    subst (λ r. Reads import_entry (import_code imp) r) i.is_canonical
      (Reads-bind _ (name-name_code imp.module_name i.short_module) (
        Reads-bind _ (name-name_code imp.name i.short_name) (
          Reads-bind _ (Reads-byte1 imp.kind) (import_desc-desc_code imp.kind imp i.known_kind i))))

encode_desc :
    (e : List ℕ) (k : ℕ) (imp : Import)
    → k < 4
    → encode_import e (record imp { kind = k }) ≡ e ++ import_code (record imp { kind = k })
unfolding encode_import
encode_desc e zero imp h = simp (put_name-eq-append, put_u32-eq-append, append_assoc)
encode_desc e (suc zero) imp h = simp (put_name-eq-append, encode_limits-eq-append, append_assoc)
encode_desc e (suc (suc zero)) imp h =
    simp (put_name-eq-append, encode_limits-eq-append, append_assoc)
encode_desc e (suc (suc (suc zero))) imp h = simp (put_name-eq-append, append_assoc)
encode_desc e (suc (suc (suc (suc k)))) imp h = absurd (omega arith)

pub encode_import-eq-append :
    (e : List ℕ) (imp : Import) → imp.kind < 4 → encode_import e imp ≡ e ++ import_code imp
encode_import-eq-append e imp h = encode_desc e imp.kind imp h

pub encode_imports_loop :
    (e : List ℕ) (imps : List Import)
    → All IsImport imps
    → foldl encode_import e imps ≡ e ++ concat_map import_code imps
encode_imports_loop e [] h = sym (append-nil e)
encode_imports_loop e (imp ∷ imps) (i, is) =
    encode_imports_loop (encode_import e imp) imps is
    ∙ rw (encode_import-eq-append e imp i.known_kind)
        (append_assoc e (import_code imp) (concat_map import_code imps))

-- parse_imports reads back the import section that encode_imports wrote, for fewer than 2^32
-- canonical imports.
pub parse_imports-encode_imports :
    (m : Module)
    → IsShort m.imports
    → All IsImport m.imports
    → Reads parse_imports (encode_imports m) m.imports
unfolding parse_imports encode_imports
parse_imports-encode_imports m short is =
    rw
      (
        encode_imports_loop (put_u32 [] (u32_len m.imports)) m.imports is,
        put_u32-eq-append [] (u32_len m.imports),
      )
      (Reads-vec import_entry import_code m.imports short
        (All-map IsImport _ import_entry-import_code m.imports is))
