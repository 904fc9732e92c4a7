-- ===== src/Wire/Bytes.antt =====
-- Big-endian words, zero-terminated strings and the text functions that wire.go uses of Go's
-- standard library. A uintN is a number below 2 ^ N, and an int64 is a `ℤ`.
use pglite_go.Base.{
  ℕ, zero, suc, ◌+◌, ◌-◌, ◌*◌, ◌/◌, ◌%◌, ◌^◌, Bool, true, Option, none, some, List, [], ◌∷◌, ◌++◌,
  ltb, leb, ◌==◌, ◌||◌, ◌&&◌, if◌then◌else◌, length, drop,
}
use pglite_go.Base.Outcome.{Outcome, ok, panic, ◌>>=◌}

-- `negsuc n` is -(n + 1).
pub data ℤ : Type 0 where
  pos : ℕ → ℤ
  negsuc : ℕ → ℤ

-- A two's complement word of `w` bits: int64(intw(v)).
abbrev pub signed : ℕ → ℕ → ℤ
signed w v = if ltb v (2 ^ (w - 1)) then pos v else negsuc (2 ^ w - v - 1)

-- binary.BigEndian.AppendUint16 and AppendUint32
abbrev pub append_u16 : List ℕ → ℕ → List ℕ
append_u16 b v = b ++ (v / 2 ^ 8 % 256 ∷ v % 256 ∷ [])

abbrev pub append_u32 : List ℕ → ℕ → List ℕ
append_u32 b v = b ++ (v / 2 ^ 24 % 256 ∷ v / 2 ^ 16 % 256 ∷ v / 2 ^ 8 % 256 ∷ v % 256 ∷ [])

-- binary.BigEndian.Uint16 and Uint32 at the front of a slice, with what follows the word.
abbrev pub take_u16 : List ℕ → Outcome (ℕ × List ℕ)
take_u16 (a ∷ b ∷ p) = ok (a * 2 ^ 8 + b, p)
take_u16 p = panic

abbrev pub take_u32 : List ℕ → Outcome (ℕ × List ℕ)
take_u32 (a ∷ b ∷ c ∷ d ∷ p) = ok (a * 2 ^ 24 + b * 2 ^ 16 + c * 2 ^ 8 + d, p)
take_u32 p = panic

-- p[n:]
abbrev pub slice_from : ℕ → List ℕ → Outcome (List ℕ)
slice_from n p = if leb n (length p) then ok (drop n p) else panic

-- val := p[:z]; p = p[z+1:] for z := indexZero(p); without a zero byte the second slice panics.
unfoldable pub take_string : List ℕ → Outcome (List ℕ × List ℕ)
take_string [] = panic
take_string (b ∷ p) =
    let rest = take_string p in if b == 0 then ok ([], p) else (rest >>= λ r. ok (b ∷ r.0, r.1))

abbrev is_zeros : List ℕ → Bool
is_zeros [] = true
is_zeros (b ∷ p) = b == 0 && is_zeros p

-- strings.TrimRight(s, "\x00")
unfoldable pub trim_zeros : List ℕ → List ℕ
trim_zeros [] = []
trim_zeros (b ∷ p) = let rest = trim_zeros p in if b == 0 && is_zeros p then [] else b ∷ rest

abbrev is_space : ℕ → Bool
is_space c = leb 9 c && leb c 13 || c == 32

-- The bytes of the space of Unicode that is encoded at the front of a text, beyond those of ASCII:
-- U+0085, U+00A0, U+1680, U+2000 to U+200A, U+2028, U+2029, U+202F, U+205F and U+3000; 0 if there
-- is none.
abbrev is_space3 : ℕ → ℕ → ℕ → Bool
is_space3 a b c =
    (a == 0xE1 && b == 0x9A && c == 0x80)
    || (a == 0xE2
        && b == 0x80
        && ((leb 0x80 c && leb c 0x8A) || c == 0xA8 || c == 0xA9 || c == 0xAF))
    || (a == 0xE2 && b == 0x81 && c == 0x9F)
    || (a == 0xE3 && b == 0x80 && c == 0x80)

abbrev space_width : List ℕ → ℕ
space_width (a ∷ b ∷ c ∷ s) =
    if a == 0xC2 && (b == 0x85 || b == 0xA0) then 2 else if is_space3 a b c then 3 else 0
space_width (a ∷ b ∷ []) = if a == 0xC2 && (b == 0x85 || b == 0xA0) then 2 else 0
space_width s = 0

-- The text with a blank for every byte of such a space, as strings.Fields sees it. No byte behind
-- the first one of a character begins such a space.
unfoldable pub blank_spaces : ℕ → List ℕ → List ℕ
blank_spaces (suc skip) (c ∷ s) = 32 ∷ blank_spaces skip s
blank_spaces skip [] = []
blank_spaces zero (c ∷ s) =
    let width = space_width (c ∷ s) in (if ltb 0 width then 32 else c) ∷ blank_spaces (width - 1) s

-- The last of strings.Fields(s), where only ASCII spaces are left; `word` is the field that is
-- open.
unfoldable pub last_field : Option (List ℕ) → List ℕ → List ℕ → Option (List ℕ)
last_field found [] [] = found
last_field found (c ∷ word) [] = some (c ∷ word)
last_field found word (c ∷ s) =
    last_field (if is_space c then (if length word == 0 then found else some word) else found)
      (if is_space c then [] else word ++ (c ∷ [])) s

abbrev is_digit : ℕ → Bool
is_digit c = leb 48 c && leb c 57

unfoldable pub digits_from : ℕ → List ℕ → Option ℕ
digits_from n [] = some n
digits_from n (c ∷ s) =
    let rest = digits_from (n * 10 + (c - 48)) s in if is_digit c then rest else none

unfoldable pub digits : List ℕ → Option ℕ
digits [] = none
digits (c ∷ s) = digits_from 0 (c ∷ s)

abbrev positive : Option ℕ → Option ℤ
positive none = none
positive (some n) = if ltb n (2 ^ 63) then some (pos n) else none

abbrev negative : Option ℕ → Option ℤ
negative none = none
negative (some zero) = some (pos 0)
negative (some (suc n)) = if leb (suc n) (2 ^ 63) then some (negsuc n) else none

-- strconv.ParseInt(s, 10, 64); `none` is its error.
unfoldable pub parse_int : List ℕ → Option ℤ
unfolding digits digits_from
parse_int [] = none
parse_int (c ∷ s) =
    if c == b'-'
    then negative (digits s)
    else if c == b'+'
    then positive (digits s)
    else positive (digits (c ∷ s))
