-- ===== src/Wire.antt =====
-- wire.py: the portable values, their tagged representation and decimal numbers.
pub mod Value
pub mod Decimal
pub mod Hex
pub mod Typed
