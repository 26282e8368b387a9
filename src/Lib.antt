-- ===== src/Lib.antt =====
-- dbcrossbar copies tabular data between databases and file formats. Data moves as streams of CSV
-- chunks, and each driver converts its own table schemas to a portable schema and back. This
-- library models the parts of dbcrossbarlib that decide what is copied and how it is declared.
--
-- The parts, and where they are:
--
-- Schema: the portable schema of dbcrossbarlib/src/schema.rs (`Table`, `Column`, `DataType`),
-- which all drivers convert to and from. A `Vec<StructField>` is the data type `StructFields`.
--
-- Separator: dbcrossbarlib/src/separator.rs, used by every writer of lists.
--
-- BigQuery: dbcrossbarlib/src/drivers/bigquery_shared. ColumnName is column_name.rs; Types,
-- Convert, Align and JsonSafe are data_type/mod.rs (the types and their text, `for_data_type` and
-- `to_data_type`, `aligned_with`, `is_json_safe`); Grammar is the parser of data_type/grammar.rs;
-- Column is column.rs and Table is table.rs, with the choice of the table that
-- dbcrossbarlib/src/drivers/bigquery/write_remote_data.rs loads first. Sql and Sql/Merge are the
-- CREATE TABLE, INSERT and MERGE statements of table.rs with the names of table_name.rs, and
-- Export is `needs_custom_json_export` of export_udf.rs with the SELECT expressions of column.rs.
-- ImportUdf and ExportUdf are the JavaScript functions of import_udf.rs and export_udf.rs with the
-- indentation of indent_level.rs, and TableSql has the scripts of table.rs that import, export and
-- count.
--
-- Csv: dbcrossbarlib/src/concat.rs, by which several CSV streams become one. Streams has the
-- streams of chunks and `try_forward_to_sender` of dbcrossbarlib/src/tokio_glue.rs; Header has
-- `csv_header_length`; Concat has `strip_csv_header` and `concatenate_csv_streams`. Rechunk is
-- dbcrossbarlib/src/rechunk.rs: the writer of the `csv` crate is the record `CsvWriter`, with the
-- laws `CsvWriterLaws`, and its reader is a function. Name is `csv_stream_name` of
-- dbcrossbarlib/src/csv_stream.rs.
--
-- DriverArgs: dbcrossbarlib/src/driver_args.rs, the arguments of a driver: Grammar reads one, and
-- `to_json` makes a JSON value of all of them.
--
-- Peg: parsing expressions, with the meaning that the `peg` crate gives them. The grammars of
-- BigQuery types, of driver arguments, of TypeScript and of CREATE TABLE are rules of it.
--
-- TypeScript: dbcrossbarlib/src/drivers/dbcrossbar_ts. Ast, Check, Convert and Grammar are ast.rs
-- (the tree of a source file, `SourceFile::parse` with its checks, the conversion of a definition
-- to a table, and the `peg` grammar), Parse puts them together, and Locator is the locator of
-- mod.rs, which reads a `PathOrStdio` of dbcrossbarlib/src/path_or_stdio.rs.
--
-- IfExists: dbcrossbarlib/src/if_exists.rs, what to do if a destination exists.
--
-- Postgres: dbcrossbarlib/src/drivers/postgres_shared. Quote and TableName are mod.rs (`pg_quote`,
-- `Ident`, `TableName`), Types is data_type.rs, Column is column.rs, Table is table/mod.rs and
-- Catalog is catalog.rs, on the rows that the queries of the catalog answer. SqlText and
-- CreateTable are the `peg` grammar of table/create_table_sql.rs. Binary and CsvToBinary are
-- dbcrossbarlib/src/drivers/postgres/csv_to_binary, which turns CSV data into the binary format of
-- COPY: write_binary.rs with Binary/ToPostgis for the conversion of geometries, and mod.rs. They
-- read the cells of CSV data with FromCsvCell (dbcrossbarlib/src/from_csv_cell.rs) and the members
-- of arrays with FromJsonValue (dbcrossbarlib/src/from_json_value.rs). Bytes has the integers in
-- network order.
--
-- Base: lists, texts, results and tests over the native numbers, which all parts share.
--
-- Tests: the definitions and the theorems at concrete inputs.
--
-- How the code is represented: a text is the list of its code points. A fallible function returns
-- `Result`, with a data type of errors for each component; a panic is an error of its own. A
-- writer to `&mut dyn Write` returns the text that it has written when it succeeds. A `HashMap` or
-- a `HashSet` is the list of what was put in, with a lookup that keeps what the map keeps. An
-- asynchronous stream is the list of the items that arrive, and a worker the list of the items
-- that it sends: a reader takes all of them, so that sending does not fail and channels need no
-- bound. The methods of `self` on a table whose name is only passed on (BigQuery) take the
-- columns.
--
-- Bounds and fuel: the recursive rules of the BigQuery grammar run on fuel, which is four times
-- the length of the input and five; each rule consumes input before it comes back to itself, so
-- that this is enough. The number of dimensions of a PostgreSQL array is an `i32`: it is kept as
-- 32 bits, and wraps at 2^32. The number of a chunk of CSV data stops the worker at 2^64. The
-- members of an argument's name are read on the length of what is left of it. The columns of
-- CREATE TABLE behind the first run on the length of their input and one. The rule of TypeScript
-- types runs on the length of its input and one, and its gaps on the length of their input: each
-- turn consumes, so that these are enough. The fuel of `identifier_to_data_type` is the depth of
-- the recursion, to which the program sets no bound: for a file whose types refer to themselves no
-- depth is enough. An integer of w bits in the binary format is the number below 2^w that has its
-- bits. All other recursion is on the structure of the data.
--
-- Not modelled: input and output, the remote services and their clients, logging, serde, the
-- command line, and the messages of errors beyond what they name. The digits of a number in a text
-- are a parameter, and so are the random tag of a temporary table, the answers of the PostgreSQL
-- catalog, the percent decoder of locators, and the crates that read dates, times, floating-point
-- numbers, geometries, UUIDs and JSON or write EWKB (the records `Parsers` and `Crates`). Nor are
-- the drivers themselves, which call what is modelled here.
pub mod Base
pub mod Schema
pub mod Separator
pub mod PathOrStdio
pub mod Bytes
pub mod Peg
pub mod TypeScript
pub mod BigQuery
pub mod Csv
pub mod Postgres
pub mod IfExists
pub mod FromCsvCell
pub mod FromJsonValue
pub mod DriverArgs
pub mod Tests
