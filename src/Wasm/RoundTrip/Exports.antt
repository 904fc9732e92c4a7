-- ===== src/Wasm/RoundTrip/Exports.antt =====
-- The export, the element and the data section.
use pglite_go.Base.{ℕ, ◌≡◌, ◌∙◌, List, [], ◌∷◌, ◌++◌, All, append_assoc, arith}
use pglite_go.Cursor.Reads.{
  Reads, Reads-bind, Reads-map, Reads-pure, Reads-byte1, Reads-copy_bytes, Reads-repeat,
}
use pglite_go.Leb.{u32, put_u32}
use pglite_go.Leb.Unsigned.{u32_code, u32-u32_code, put_u32-eq-append}
use pglite_go.Leb.Vectors.{
  IsShort, Reads-vec, name-name_code, name_code, put_name-eq-append, vec_code, foldl-eq-vec_code,
  All-map, u32-u32_len,
}
use pglite_go.Wasm.Model.{Export, ElemSeg, DataSeg, Module}
use pglite_go.Wasm.Decode.{
  export_entry, parse_exports, const_expr, elem_seg, parse_elems, data_seg, parse_data,
}
use pglite_go.Wasm.Encode.{
  encode_export, encode_exports, encode_elem, encode_elems, encode_data_seg, encode_data,
}
use pglite_go.Wasm.RoundTrip.Imports.{IsU32}

pub record IsExport (x : Export) : Type 0 where
  pub short_name : IsShort x.name
  pub index_fits : IsU32 x.index

abbrev pub export_code : Export → List ℕ
export_code x = name_code x.name ++ (x.kind ∷ u32_code x.index)

encode_export-eq-append : (e : List ℕ) (x : Export) → encode_export e x ≡ e ++ export_code x
unfolding encode_export
encode_export-eq-append e x = simp (put_name-eq-append, put_u32-eq-append, append_assoc)

export_entry-export_code : (x : Export) → IsExport x → Reads export_entry (export_code x) x
unfolding export_entry
export_entry-export_code x h = Reads-bind _ (name-name_code x.name h.short_name) (
    Reads-bind _ (Reads-byte1 x.kind)
      (Reads-map _ (u32-u32_code x.index h.index_fits) (Reads-pure _)))

-- parse_exports reads back the export section that encode_exports wrote, for fewer than 2^32
-- exports.
pub parse_exports-encode_exports :
    (m : Module)
    → IsShort m.exports
    → All IsExport m.exports
    → Reads parse_exports (encode_exports m) m.exports
unfolding parse_exports encode_exports
parse_exports-encode_exports m short xs =
    rw (foldl-eq-vec_code encode_export export_code encode_export-eq-append [] m.exports) (
      Reads-vec export_entry export_code m.exports short
        (All-map IsExport _ export_entry-export_code m.exports xs))

-- An active segment of the first table: its offset is one constant expression.
pub record IsElem (s : ElemSeg) : Type 0 where
  pub active : s.flag ≡ 0
  pub is_offset : Reads const_expr s.offset s.offset
  pub short : IsShort s.funcs
  pub funcs_fit : All IsU32 s.funcs

abbrev pub elem_code : ElemSeg → List ℕ
elem_code s = u32_code s.flag ++ (s.offset ++ vec_code u32_code s.funcs)

encode_elem-eq-append : (e : List ℕ) (s : ElemSeg) → encode_elem e s ≡ e ++ elem_code s
unfolding encode_elem
encode_elem-eq-append e s =
    foldl-eq-vec_code put_u32 u32_code put_u32-eq-append (put_u32 e s.flag ++ s.offset) s.funcs
    ∙ simp (put_u32-eq-append, append_assoc)

elem_seg-elem_code : (s : ElemSeg) → IsElem s → Reads elem_seg (elem_code s) s
unfolding elem_seg
elem_seg-elem_code s h = rw h.active (
    Reads-bind _ (u32-u32_code 0 (omega arith)) (
      Reads-bind _ h.is_offset (
        Reads-bind _ (u32-u32_len s.funcs h.short) (
          Reads-map _
            (Reads-repeat u32 u32_code s.funcs (All-map IsU32 _ u32-u32_code s.funcs h.funcs_fit))
            (Reads-pure _)))))

-- parse_elems reads back the element section that encode_elems wrote, for fewer than 2^32 active
-- segments.
pub parse_elems-encode_elems :
    (m : Module) → IsShort m.elems → All IsElem m.elems → Reads parse_elems (encode_elems m) m.elems
unfolding parse_elems encode_elems
parse_elems-encode_elems m short xs =
    rw (foldl-eq-vec_code encode_elem elem_code encode_elem-eq-append [] m.elems)
      (Reads-vec elem_seg elem_code m.elems short (All-map IsElem _ elem_seg-elem_code m.elems xs))

pub record IsData (s : DataSeg) : Type 0 where
  pub active : s.flag ≡ 0
  pub is_offset : Reads const_expr s.offset s.offset
  pub short : IsShort s.contents

abbrev pub data_code : DataSeg → List ℕ
data_code s = u32_code s.flag ++ (s.offset ++ name_code s.contents)

encode_data_seg-eq-append : (e : List ℕ) (s : DataSeg) → encode_data_seg e s ≡ e ++ data_code s
unfolding encode_data_seg
encode_data_seg-eq-append e s = simp (put_u32-eq-append, append_assoc)

data_seg-data_code : (s : DataSeg) → IsData s → Reads data_seg (data_code s) s
unfolding data_seg
data_seg-data_code s h = rw h.active (
    Reads-bind _ (u32-u32_code 0 (omega arith)) (
      Reads-bind _ h.is_offset (
        Reads-bind _ (u32-u32_len s.contents h.short)
          (Reads-map _ (Reads-copy_bytes s.contents) (Reads-pure _)))))

-- parse_data reads back the data section that encode_data wrote, for fewer than 2^32 active
-- segments.
pub parse_data-encode_data :
    (m : Module) → IsShort m.datas → All IsData m.datas → Reads parse_data (encode_data m) m.datas
unfolding parse_data encode_data
parse_data-encode_data m short xs =
    rw (foldl-eq-vec_code encode_data_seg data_code encode_data_seg-eq-append [] m.datas)
      (Reads-vec data_seg data_code m.datas short (All-map IsData _ data_seg-data_code m.datas xs))
