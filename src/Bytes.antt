-- ===== src/Bytes.antt =====
-- Bytes as numbers below 256: integers in network order, and texts in UTF-8. A signed integer of w bits
-- is its two's complement, a number below 2^w.
pub mod Laws
use dbcrossbar.Base.{
  ℕ, ◌+◌, ◌-◌, ◌*◌, ◌/◌, ◌%◌, ◌<◌, List, [], ◌∷◌, ◌++◌, Text, ltb, leb, ◌||◌, Option, some, none,
  if◌then◌else◌,
}

abbrev pub Bytes : Type 0
Bytes = List ℕ

-- `write_u8`, `write_i16::<NE>`, `write_i32::<NE>` and `write_i64::<NE>`.
abbrev pub be8 : ℕ → Bytes
be8 n = n ∷ []

abbrev pub be16 : ℕ → Bytes
be16 n = (n / 256 % 256) ∷ (n % 256) ∷ []

abbrev pub be32 : ℕ → Bytes
be32 n = (n / 16777216 % 256) ∷ (n / 65536 % 256) ∷ (n / 256 % 256) ∷ (n % 256) ∷ []

abbrev pub be64 : ℕ → Bytes
be64 n = be32 (n / 4294967296) ++ be32 n

-- One character in UTF-8.
unfoldable pub utf8_char : ℕ → Bytes
utf8_char c =
    if ltb c 128
    then c ∷ []
    else if ltb c 2048
    then (192 + c / 64) ∷ (128 + c % 64) ∷ []
    else if ltb c 65536
    then (224 + c / 4096) ∷ (128 + c / 64 % 64) ∷ (128 + c % 64) ∷ []
    else (240 + c / 262144) ∷ (128 + c / 4096 % 64) ∷ (128 + c / 64 % 64) ∷ (128 + c % 64) ∷ []

-- `str::as_bytes`.
unfoldable pub as_bytes : Text → Bytes
unfolding utf8_char
as_bytes [] = []
as_bytes (c ∷ s) = utf8_char c ++ as_bytes s

-- `i16::try_from` and `i32::try_from` on an `i64`, and on a `usize` or `u32`.
unfoldable pub i16_of_i64 : ℕ → Option ℕ
i16_of_i64 n =
    if ltb n 32768 || leb (18446744073709551616 - 32768) n then some (n % 65536) else none

unfoldable pub i32_of_i64 : ℕ → Option ℕ
i32_of_i64 n =
    if ltb n 2147483648 || leb (18446744073709551616 - 2147483648) n
    then some (n % 4294967296)
    else none

unfoldable pub i16_of_usize : ℕ → Option ℕ
i16_of_usize n = if ltb n 32768 then some n else none

unfoldable pub i32_of_usize : ℕ → Option ℕ
i32_of_usize n = if ltb n 2147483648 then some n else none
