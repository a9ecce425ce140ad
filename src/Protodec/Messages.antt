-- ===== src/Protodec/Messages.antt =====
-- The message decoders of src/protodec.c, by type.
pub mod Binary
pub mod Position
pub mod Static
pub mod Slots
pub mod Bounds
