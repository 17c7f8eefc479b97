-- ===== src/Collections.antt =====
-- Python's `dict` and `set`, as the program uses them.
pub mod Dict
pub mod PySet
pub mod Members
