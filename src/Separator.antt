-- ===== src/Separator.antt =====
-- dbcrossbarlib/src/separator.rs: a separator that prints nothing the first time it is used.
use dbcrossbar.Base.{Bool, true, false, [], Text, if◌then◌else◌}

pub record Separator : Type 0 where
  pub text : Text
  pub first_time : Bool

abbrev pub new : Text → Separator
new text = record { text = text; first_time = true }

-- `display(&mut self)`: the separator afterwards, and what is printed.
abbrev pub display : Separator → Separator × Text
display s = if s.first_time then (record s { first_time = false }, []) else (s, s.text)
