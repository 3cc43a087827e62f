-- ===== src/Cel.antt =====
-- cel.py: the static types and the checker of the portable CEL profile.
pub mod Types
pub mod Tree
pub mod Operators
pub mod Checker
pub mod Equality
