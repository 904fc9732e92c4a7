-- ===== src/Wasm.antt =====
-- internal/wasmpass/wasm.go: the module that the passes rewrite, its decoder and its encoder.
pub mod Model
pub mod Decode
pub mod Encode
pub mod RoundTrip
