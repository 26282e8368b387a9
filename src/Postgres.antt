-- ===== src/Postgres.antt =====
-- dbcrossbarlib/src/drivers/postgres_shared: PostgreSQL names, types, columns and tables.
pub mod Quote
pub mod TableName
pub mod Types
pub mod Column
pub mod Table
pub mod SqlText
pub mod CreateTable
pub mod Binary
pub mod CsvToBinary
pub mod Catalog
