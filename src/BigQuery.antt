-- ===== src/BigQuery.antt =====
-- dbcrossbarlib/src/drivers/bigquery_shared: BigQuery's names, types and columns.
pub mod ColumnName
pub mod Types
pub mod Grammar
pub mod Convert
pub mod Align
pub mod JsonSafe
pub mod Column
pub mod Table
pub mod IndentLevel
pub mod ImportUdf
pub mod Sql
pub mod Export
pub mod ExportUdf
pub mod TableSql
