-- ===== src/Protodec.antt =====
-- src/protodec.c, the decoder of one radio channel.
pub mod Types
pub mod Henten
pub mod Crc
pub mod Text
pub mod Messages
pub mod Nmea
pub mod Getdata
pub mod Decode
