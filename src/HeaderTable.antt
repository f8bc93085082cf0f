-- ===== src/HeaderTable.antt =====
-- libhpack/header_table.c and header_table.h, in parts: the two circular buffers, the record that
-- stands before each field in the second, the static table and the table itself.
pub mod DataRing
pub mod OffsetsRing
pub mod Info
pub mod StaticTable
pub mod Table
pub mod Holds
pub mod Update
pub mod Query
mod Tests
