-- ===== src/Tests.antt =====
-- Tests of the definitions on concrete inputs, and the theorems at concrete inputs.
pub mod Csv
pub mod Rechunk
pub mod IfExists
pub mod DriverArgs
pub mod Postgres
pub mod BigQuery
pub mod TypeScript
