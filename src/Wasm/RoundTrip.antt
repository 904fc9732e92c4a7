-- ===== src/Wasm/RoundTrip.antt =====
-- `Decode` of what `Encode` wrote, section by section.
pub mod Imports
pub mod Exports
pub mod Codes
pub mod Sections
pub mod Whole
