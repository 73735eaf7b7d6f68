-- ===== src/Collections.antt =====
-- Python's `set` and `dict` as the program uses them.
pub mod Sets
pub mod Dict
pub mod Sorting
