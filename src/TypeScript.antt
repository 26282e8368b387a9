-- ===== src/TypeScript.antt =====
-- dbcrossbarlib/src/drivers/dbcrossbar_ts/ast.rs: schemas written in a subset of TypeScript. The
-- spans of the source's nodes serve its error messages only, and are left out.
pub mod Ast
pub mod Check
pub mod Convert
pub mod Grammar
pub mod Parse
pub mod Locator
