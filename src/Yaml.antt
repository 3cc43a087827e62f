-- ===== src/Yaml.antt =====
-- yaml12.py: portable YAML.
pub mod Host
pub mod Plain
pub mod Load
