-- ===== src/Examples.antt =====
-- Tests, and the theorems of the other files on concrete data.
mod Queues
mod Values
mod Machines
mod Stores
mod Steps
mod Sources
