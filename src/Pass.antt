-- ===== src/Pass.antt =====
-- internal/wasmpass: the instruction walker of opcodes.go and the passes of passes.go.
pub mod Walk
pub mod Config
pub mod Prelink
pub mod Reach
pub mod Instrument
