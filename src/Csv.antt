-- ===== src/Csv.antt =====
-- CSV data on its way: streams of bytes, their headers, concatenation, chunks and names.
pub mod Streams
pub mod Header
pub mod Concat
pub mod Rechunk
pub mod Name
