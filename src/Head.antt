-- ===== src/Head.antt =====
-- head of annotated_Dataset-1/head.c: what it writes of a file, from the start or all but the end.
--
-- gnulib's safe_read and full_read are not part of the repository: they are the interface
-- Head/Input. Seeking back after the output is not modelled.
pub mod Input
pub mod Memory
pub mod Reads
pub mod Start
pub mod TailBytes
pub mod TailLines
mod Examples
