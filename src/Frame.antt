-- ===== src/Frame.antt =====
-- src/frame.rs: the envelope and the router's own control bodies. `LittleEndian` is the standard
-- library's `to_le_bytes` and `from_le_bytes`; `Cursor` is the reader, `Envelope` the frame with its
-- three decoders, `Control` the bodies of HELLO, PROVIDERS and the other control frames.
pub mod LittleEndian
pub mod Cursor
pub mod Envelope
pub mod Control
mod Tests
mod Suite
