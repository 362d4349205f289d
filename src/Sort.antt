-- ===== src/Sort.antt =====
-- sort of annotated_Dataset-1/sort.c.
pub mod Order
pub mod Sequential
pub mod Fields
pub mod Compare
pub mod Sorted
pub mod Check
mod Examples
