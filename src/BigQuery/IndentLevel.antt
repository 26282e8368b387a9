-- ===== src/BigQuery/IndentLevel.antt =====
-- dbcrossbarlib/src/drivers/bigquery_shared/indent_level.rs: the indentation of generated code.
use dbcrossbar.Base.{ℕ, zero, suc, ltb, Text, [], ◌++◌, codes, if◌then◌else◌}

abbrev pub none : ℕ
none = 0

-- A `u8` that stops at its largest value.
abbrev pub incr : ℕ → ℕ
incr self = if ltb self 255 then suc self else 255

unfoldable pub display : ℕ → Text
display zero = []
display (suc n) = codes "  " ++ display n
