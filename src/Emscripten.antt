-- ===== src/Emscripten.antt =====
-- The binary encoder and the two module readers of emscripten/.
pub mod Codec
pub mod Numbers
pub mod Slice
pub mod Patch
pub mod Takes
pub mod Dylink
