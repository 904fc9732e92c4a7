-- ===== src/Vfs/File.antt =====
-- memHandle and roBufHandle of vfs/file.go, and the resizing step of FS.Truncate of vfs/vfs.go.
--
-- A node's Data is a Go slice: `content` is what lies below its length, `spare` what lies from there
-- to its capacity, which a reslice makes visible. The time of the last change is left out.
use pglite_go.Base.{
  ℕ, zero, suc, ◌+◌, ◌-◌, ◌*◌, ◌%◌, ◌^◌, List, [], ◌++◌, length, take, drop, replicate, Option,
  none, some, ltb, leb, if◌then◌else◌,
}
use pglite_go.Base.Outcome.{Outcome, ok, panic}
use pglite_go.Wire.Bytes.{ℤ, pos, negsuc, signed}

pub record Node : Type 0 where
  pub content : List ℕ
  pub spare : List ℕ

-- The errors of the handles.
pub data Fault : Type 0 where
  eof : Fault
  negative_offset : Fault
  invalid_whence : Fault
  permission : Fault

abbrev pub cap : Node → ℕ
cap n = length n.content + length n.spare

-- ReadAt into a buffer of `n` bytes: the bytes it fills, and its error.
unfoldable pub read_at : List ℕ → ℕ → ℤ → List ℕ × Option Fault
read_at old n (negsuc k) = ([], some negative_offset)
read_at old n (pos off) =
    let got = take n (drop off old) in
    if leb (length old) off
    then ([], some eof)
    else if ltb (length got) n
    then (got, some eof)
    else (got, none)

-- newCap
unfoldable pub grown_cap : ℕ → ℕ → ℕ
grown_cap size needed =
    let doubled = if ltb (size * 2) needed then needed else size * 2 in
    if ltb doubled 4096 then 4096 else doubled

-- The buffer with room for `needed` bytes: resliced within its capacity, else a copy in zeroes.
unfoldable pub grow : Node → ℕ → Node
unfolding grown_cap
grow n needed =
    if ltb (length n.content) needed
    then if ltb (cap n) needed
      then record {
        content = n.content ++ replicate (needed - length n.content) 0;
        spare = replicate (grown_cap (cap n) needed - needed) 0;
      }
      else record {
        content = take needed (n.content ++ n.spare);
        spare = drop needed (n.content ++ n.spare);
      }
    else n

-- `copy(old[off:], p)`
unfoldable pub copy_at : List ℕ → ℕ → List ℕ → Outcome (List ℕ)
copy_at old off p =
    if leb off (length old)
    then ok (take off old ++ (take (length old - off) p ++ drop (off + length p) old))
    else panic

abbrev pub written : Node → ℕ → Outcome (List ℕ) → Outcome (Node × (ℕ × Option Fault))
written n count (ok old) = ok (record n { content = old }, (count, none))
written n count (Outcome.err e) = Outcome.err e
written n count panic = panic
written n count Outcome.stuck = Outcome.stuck

-- WriteAt; `needed` is an int64, negative where the sum has left its range, and then no more than the length.
unfoldable pub write_at : Node → List ℕ → ℤ → Outcome (Node × (ℕ × Option Fault))
unfolding grow copy_at
write_at n p (negsuc k) = ok (n, (0, some negative_offset))
write_at n p (pos off) =
    let sum = off + length p in
    let n' = if ltb sum (2 ^ 63) then grow n sum else n in
    written n' (length p) (copy_at n'.content off p)

-- FS.Truncate behind its lookups: a shorter content keeps the rest of the buffer as capacity.
unfoldable pub truncate : Node → ℤ → Outcome Node
truncate n (negsuc k) = panic
truncate n (pos size) =
    if ltb size (length n.content)
    then ok (record { content = take size n.content; spare = drop size n.content ++ n.spare })
    else if ltb (length n.content) size
    then ok (record { content = n.content ++ replicate (size - length n.content) 0; spare = [] })
    else ok n

-- An open handle; roBufHandle is one over a fixed buffer.
pub record Handle : Type 0 where
  pub node : Node
  pub off : ℤ

-- The sum of two int64.
abbrev pub wrap_int : ℤ → ℤ
wrap_int (pos a) = signed 64 (a % 2 ^ 64)
wrap_int (negsuc a) = if ltb a (2 ^ 63) then negsuc a else pos (2 ^ 64 - suc a)

abbrev pub sum_int : ℤ → ℤ → ℤ
sum_int (pos a) (pos b) = pos (a + b)
sum_int (pos a) (negsuc b) = if ltb b a then pos (a - suc b) else negsuc (b - a)
sum_int (negsuc a) (pos b) = if ltb a b then pos (b - suc a) else negsuc (a - b)
sum_int (negsuc a) (negsuc b) = negsuc (suc (a + b))

abbrev pub add_int : ℤ → ℤ → ℤ
add_int a b = wrap_int (sum_int a b)

-- Read: the bytes, the error and the handle with its offset moved.
unfoldable pub read : Handle → ℕ → (List ℕ × Option Fault) × Handle
unfolding read_at
read h n =
    let r = read_at h.node.content n h.off in
    (r, record h { off = add_int h.off (pos (length r.0)) })

abbrev pub moved : Handle → ℤ → (ℤ × Option Fault) × Handle
moved h (pos a) = ((pos a, none), record h { off = pos a })
moved h (negsuc a) = ((pos 0, some negative_offset), h)

-- Seek with whence 0 (start), 1 (current) and 2 (end).
unfoldable pub seek : Handle → ℤ → ℕ → (ℤ × Option Fault) × Handle
seek h offset zero = moved h offset
seek h offset (suc zero) = moved h (add_int h.off offset)
seek h offset (suc (suc zero)) = moved h (add_int (pos (length h.node.content)) offset)
seek h offset (suc (suc (suc w))) = ((pos 0, some invalid_whence), h)

-- WriteAt of roBufHandle.
unfoldable pub read_only_write_at : Handle → List ℕ → ℤ → (ℕ × Option Fault) × Handle
read_only_write_at h p off = ((0, some permission), h)
