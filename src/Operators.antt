-- ===== src/Operators.antt =====
-- The physical operators of src/storage/tierdb_insert.cpp, src/storage/tierdb_delete.cpp and src/storage/tierdb_update.cpp
-- as DuckDB runs them: made by a plan, a global sink state, `Sink` for each chunk, and the count at the end.
pub mod Insert
pub mod Delete
pub mod Update
pub mod Run
pub mod Shape
pub mod Total
pub mod Progress
pub mod Lost
