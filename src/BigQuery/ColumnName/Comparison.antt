-- ===== src/BigQuery/ColumnName/Comparison.antt =====
-- Names are compared by their lower-case copies.
use dbcrossbar.Base.{◌≡◌, ◌↔◌, true, map, Text, text_eq_iff, text_eq_refl, ok}
use dbcrossbar.BigQuery.ColumnName.{ColumnName, to_ascii_lowercase, as_lowercase, name_eq, try_from}
use dbcrossbar.BigQuery.ColumnName.Validity.{try_from-eq-ok, as_lowercase-of_text}

pub name_eq_refl : (n : ColumnName) → name_eq n n ≡ true
unfolding name_eq
name_eq_refl n = text_eq_refl (as_lowercase n)

pub as_lowercase-try_from :
    (s : Text) {n : ColumnName} → try_from s ≡ ok n → as_lowercase n ≡ map to_ascii_lowercase s
as_lowercase-try_from s made = rw (← (try_from-eq-ok s made).1) (as_lowercase-of_text s)

-- Names made of two texts are equal exactly when the texts agree up to the case of ASCII letters.
pub name_eq-try_from_iff :
    (s t : Text) {n m : ColumnName}
    → try_from s ≡ ok n
    → try_from t ≡ ok m
    → (name_eq n m ≡ true) ↔ (map to_ascii_lowercase s ≡ map to_ascii_lowercase t)
unfolding name_eq
name_eq-try_from_iff s t p q =
    rw (as_lowercase-try_from s p, as_lowercase-try_from t q) (text_eq_iff _ _)
