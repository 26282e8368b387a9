-- ===== src/Bytes/Laws.antt =====
-- The bytes of an integer give it back.
use dbcrossbar.Base.{ℕ, ◌+◌, ◌*◌, ◌/◌, ◌%◌, ◌<◌, ◌≡◌, some, arith}
use dbcrossbar.Bytes.{i16_of_usize, i32_of_usize}

abbrev pub read16 : ℕ → ℕ → ℕ
read16 a b = a * 256 + b

abbrev pub read32 : ℕ → ℕ → ℕ → ℕ → ℕ
read32 a b c d = ((a * 256 + b) * 256 + c) * 256 + d

pub read16-be16 : (n : ℕ) → n < 65536 → read16 (n / 256 % 256) (n % 256) ≡ n
read16-be16 n h = omega arith

pub read32-be32 :
    (n : ℕ)
    → n < 4294967296
    → read32 (n / 16777216 % 256) (n / 65536 % 256) (n / 256 % 256) (n % 256) ≡ n
read32-be32 n h = omega arith

pub i16_of_usize-some : (n m : ℕ) → i16_of_usize n ≡ some m → (m ≡ n) × (n < 32768)
unfolding i16_of_usize
i16_of_usize-some n m h = ground arith

pub i32_of_usize-some : (n m : ℕ) → i32_of_usize n ≡ some m → (m ≡ n) × (n < 2147483648)
unfolding i32_of_usize
i32_of_usize-some n m h = ground arith
