-- ===== src/Store.antt =====
-- The execution stores: stores/base.py, stores/memory.py and stores/file.py.
pub mod Base
pub mod Memory
pub mod File
