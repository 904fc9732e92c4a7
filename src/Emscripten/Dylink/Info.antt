-- ===== src/Emscripten/Dylink/Info.antt =====
-- What ParseDylink returns for a module that begins with the dylink.0 section.
use pglite_go.Base.{
  ℕ, ◌^◌, ◌<◌, ◌≡◌, refl, List, ◌∷◌, ◌++◌, length, codes, bytes_eq, arith, ltb, false,
}
use pglite_go.Base.Outcome.{ok}
use pglite_go.Emscripten.Codec.{encode_leb128_u}
use pglite_go.Emscripten.Numbers.{encode_leb128_u-put_u32}
use pglite_go.Emscripten.Dylink.{dylink_uleb, mem_info, dylink_name, first_section, parse_dylink}
use pglite_go.Leb.Unsigned.{u32_code, uleb-u32_code}
use pglite_go.Emscripten.Patch.Whole.{header}

dylink_uleb-encode :
    (v : ℕ) (rest : List ℕ) → v < 2 ^ 32 → dylink_uleb (encode_leb128_u v ++ rest) ≡ ok (v, rest)
unfolding dylink_uleb u32_code
dylink_uleb-encode v rest h = rw (encode_leb128_u-put_u32 v, uleb-u32_code 32 v rest h) refl

-- The subsection, from its size on.
abbrev pub info_code : ℕ → ℕ → ℕ → ℕ → List ℕ → List ℕ
info_code sub mem_size mem_align table_size rest =
    encode_leb128_u sub
    ++ (encode_leb128_u mem_size
        ++ (encode_leb128_u mem_align ++ (encode_leb128_u table_size ++ rest)))

mem_info-info_code :
    (sub mem_size mem_align table_size : ℕ) (rest : List ℕ)
    → sub < 2 ^ 32
    → mem_size < 2 ^ 32
    → mem_align < 2 ^ 32
    → table_size < 2 ^ 32
    → mem_info (info_code sub mem_size mem_align table_size rest) ≡ ok (mem_size, table_size)
unfolding mem_info
mem_info-info_code sub mem_size mem_align table_size rest h0 h1 h2 h3 =
    rw
      (
        dylink_uleb-encode sub
            (encode_leb128_u mem_size
              ++ (encode_leb128_u mem_align ++ (encode_leb128_u table_size ++ rest)))
            h0,
        dylink_uleb-encode mem_size
            (encode_leb128_u mem_align ++ (encode_leb128_u table_size ++ rest)) h1,
        dylink_uleb-encode mem_align (encode_leb128_u table_size ++ rest) h2,
        dylink_uleb-encode table_size rest h3,
      )
      refl

-- ParseDylink returns the memory size and the table size that stand in the section, for a module
-- of any version, any declared section sizes and any bytes behind the four numbers, each number
-- below 2^32.
pub parse_dylink-info :
    (a b c d size sub mem_size mem_align table_size : ℕ) (rest : List ℕ)
    → size < 2 ^ 32
    → sub < 2 ^ 32
    → mem_size < 2 ^ 32
    → mem_align < 2 ^ 32
    → table_size < 2 ^ 32
    → parse_dylink (
        header a b c d
        ++ (0
            ∷ (encode_leb128_u size
                ++ (encode_leb128_u 8
                    ++ (codes "dylink.0"
                        ++ (1 ∷ info_code sub mem_size mem_align table_size rest))))))
      ≡ ok (mem_size, table_size)
unfolding parse_dylink first_section dylink_name bytes_eq
parse_dylink-info a b c d size sub mem_size mem_align table_size rest hs h0 h1 h2 h3 =
    let info = info_code sub mem_size mem_align table_size rest in
    let name = codes "dylink.0" ++ (1 ∷ info) in
    let long : ltb
          (length (header a b c d ++ (0 ∷ (encode_leb128_u size ++ (encode_leb128_u 8 ++ name))))) 8
        ≡ false =
      ground arith in
    let named : ltb (length name) 8 ≡ false = ground arith in
    rw
      (
        long,
        dylink_uleb-encode size (encode_leb128_u 8 ++ name) hs,
        dylink_uleb-encode 8 name (omega arith),
        named,
      )
      (mem_info-info_code sub mem_size mem_align table_size rest h0 h1 h2 h3)
