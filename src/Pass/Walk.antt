-- ===== src/Pass/Walk.antt =====
-- internal/wasmpass/opcodes.go: stepping over one instruction, and the calls of a body.
use pglite_go.Base.{
  ℕ, zero, suc, ◌+◌, ◌%◌, ◌^◌, Bool, true, false, Option, none, some, List, [], ◌∷◌, ◌++◌, length,
  leb, ◌==◌, ◌&&◌, ◌||◌, if◌then◌else◌,
}
use pglite_go.Base.Outcome
use pglite_go.Base.Outcome.{Outcome, ok, err, panic, stuck}
use pglite_go.Cursor.{Cur, Read, ◌>>=◌, ◌>>◌, pure, fault, byte1, skip, eof, repeat, input}
use pglite_go.Leb.{u32, s64}

-- The target of a direct `call`, and whether the instruction is `call_indirect`.
abbrev pub Call : Type 0
Call = Option ℕ × Bool

abbrev pub plain : Read Call
plain = pure (none, false)

abbrev pub between : ℕ → ℕ → ℕ → Bool
between lo op hi = leb lo op && leb op hi

-- The operands behind the prefix 0xfc.
unfoldable pub misc_operands : ℕ → Read Call
misc_operands sub =
    if leb sub 7
    then plain
    else if sub == 8
    then (do u32; byte1; plain)
    else if sub == 9
    then (do u32; plain)
    else if sub == 10
    then (do byte1; byte1; plain)
    else if sub == 11
    then (do byte1; plain)
    else if sub == 12
    then (do u32; u32; plain)
    else if sub == 13
    then (do u32; plain)
    else if sub == 14
    then (do u32; u32; plain)
    else if between 15 sub 17
    then (do u32; plain)
    else fault

-- The switch of `walkInstr` from `local.get` on.
unfoldable pub data_operands : ℕ → Read Call
data_operands op =
    if between 0x20 op 0x24
    then (do u32; plain)
    else if between 0x25 op 0x26
    then (do u32; plain)
    else if between 0x28 op 0x3e
    then (do u32; u32; plain)
    else if op == 0x3f || op == 0x40
    then (do byte1; plain)
    else if op == 0x41
    then (do s64; plain)
    else if op == 0x42
    then (do s64; plain)
    else if op == 0x43
    then (do skip 4; plain)
    else if op == 0x44
    then (do skip 8; plain)
    else if between 0x45 op 0xbf
    then plain
    else if between 0xc0 op 0xc4
    then plain
    else if op == 0xd0
    then (do byte1; plain)
    else if op == 0xd1
    then plain
    else if op == 0xd2
    then (do u32; plain)
    else if op == 0xfc
    then (do sub ← u32; misc_operands sub)
    else fault

-- The switch of `walkInstr` up to `select`; `n+1` is a uint32.
unfoldable pub operands : ℕ → Read Call
operands op =
    if op == 0x02 || op == 0x03 || op == 0x04
    then (do s64; plain)
    else if op == 0x05
    then plain
    else if op == 0x0b
    then plain
    else if op == 0x0c || op == 0x0d
    then (do u32; plain)
    else if op == 0x0e
    then (do n ← u32; repeat ((n + 1) % 2 ^ 32) u32; plain)
    else if op == 0x0f
    then plain
    else if op == 0x00 || op == 0x01
    then plain
    else if op == 0x10
    then (do t ← u32; pure (some t, false))
    else if op == 0x11
    then (do u32; u32; pure (none, true))
    else if op == 0x1a || op == 0x1b
    then plain
    else if op == 0x1c
    then (do n ← u32; skip n; plain)
    else data_operands op

-- The cursor behind the instruction is the result `next`.
unfoldable pub walk_instr : Read Call
walk_instr = do op ← byte1; operands op

abbrev pub add_call : List ℕ → Option ℕ → List ℕ
add_call calls none = calls
add_call calls (some t) = calls ++ (t ∷ [])

-- The loop of `funcCalls`; each round takes a byte.
unfoldable pub calls_loop : ℕ → Cur → List ℕ → Bool → Outcome (List ℕ × Bool)
calls_loop zero c calls indirect = stuck
calls_loop (suc fuel) c calls indirect =
    let rest = calls_loop fuel in
    if eof c
    then ok (calls, indirect)
    else Outcome.◌>>=◌ (walk_instr c) (λ w. rest w.1 (add_call calls w.0.0) (w.0.1 || indirect))

unfoldable pub func_calls : List ℕ → Outcome (List ℕ × Bool)
func_calls body = calls_loop (suc (length body)) (input body []) [] false
