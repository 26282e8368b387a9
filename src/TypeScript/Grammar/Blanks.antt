-- ===== src/TypeScript/Grammar/Blanks.antt =====
-- dbcrossbarlib/src/drivers/dbcrossbar_ts/ast.rs: blanks and comments come to an end.
use dbcrossbar.Base.{
  ℕ, suc, ◌+◌, ◌≤◌, ◌<◌, ◌≡◌, [], ◌∷◌, Option, none, some, Text, codes, length, arith, inl, inr,
  Bool-cases, strip_prefix, ◌==◌, subst,
}
use dbcrossbar.Peg.Repeats.{Within, star-le, star-stops}
use dbcrossbar.Peg.Leaves.{Leaves, left, refused}
use dbcrossbar.BigQuery.Grammar.{is_blank}
use dbcrossbar.TypeScript.Grammar.{
  skip_line, skip_block, first_of, line_comment, block_comment, ws_item, ws_opt, or_fail, ws,
}

skip_line-le : (ts : Text) → length (skip_line ts) ≤ length ts
unfolding skip_line
skip_line-le [] = omega arith
skip_line-le (c ∷ ts) = ground (arith, skip_line-le ts)

Within-first_of : (n : ℕ) (a b : Option Text) → Within n a → Within n b → Within n (first_of a b)
Within-first_of n (some r) b h g = h
Within-first_of n none b h g = g

Within-le : (n m : ℕ) (a : Option Text) → n ≤ m → Within n a → Within m a
Within-le n m none le h = tt
Within-le n m (some r) le h = omega arith

strip-Within : (p ts : Text) (n : ℕ) → length ts ≤ length p + n → Within n (strip_prefix p ts)
unfolding strip_prefix
strip-Within [] ts n h = omega arith
strip-Within (a ∷ p) [] n h = tt
strip-Within (a ∷ p) (b ∷ ts) n h = elim (Bool-cases (a == b)) [
  | inl same ↦ rw same (strip-Within p ts n (omega arith))
  | inr other ↦ rw other tt
]

skip_block-Within : (ts : Text) → Within (length ts) (skip_block ts)
unfolding skip_block
skip_block-Within [] = tt
skip_block-Within (c ∷ ts) =
    Within-first_of (suc (length ts)) (strip_prefix (codes "*/") (c ∷ ts)) (skip_block ts)
      (strip-Within (codes "*/") (c ∷ ts) _ (omega arith))
      (Within-le _ _ (skip_block ts) (omega arith) (skip_block-Within ts))

line-Within : (n : ℕ) (o : Option Text) → Within n o → Within n (line_comment o)
line-Within n none h = tt
line-Within n (some r) h = omega (arith, skip_line-le r)

block-Within : (n : ℕ) (o : Option Text) → Within n o → Within n (block_comment o)
block-Within n none h = tt
block-Within n (some r) h = Within-le (length r) n (skip_block r) h (skip_block-Within r)

-- A blank or a comment takes a character at least.
ws_item-Within : (c : ℕ) (ts : Text) → Within (length ts) (ws_item (c ∷ ts))
unfolding ws_item
ws_item-Within c ts = elim (Bool-cases (is_blank c)) [
  | inl blank ↦ rw blank (omega arith)
  | inr other ↦ rw other (
      Within-first_of (length ts) (line_comment (strip_prefix (codes "//") (c ∷ ts)))
        (block_comment (strip_prefix (codes "/*") (c ∷ ts)))
        (line-Within _ (strip_prefix (codes "//") (c ∷ ts))
          (strip-Within (codes "//") (c ∷ ts) _ (omega arith)))
        (block-Within _ (strip_prefix (codes "/*") (c ∷ ts))
          (strip-Within (codes "/*") (c ∷ ts) _ (omega arith))))
]

ws_item-lt : (ts r : Text) → ws_item ts ≡ some r → length r < length ts
ws_item-lt [] r h = unfold ws_item in absurd (cc)
ws_item-lt (c ∷ ts) r h =
    let within : length r ≤ length ts = subst (Within (length ts)) h (ws_item-Within c ts) in
    omega arith

pub ws_opt-le : (ts : Text) → length (ws_opt ts) ≤ length ts
unfolding ws_opt
ws_opt-le ts = star-le ws_item ws_item-lt (length ts) ts

-- `ws()?` stops only where neither a blank nor a comment stands: its fuel is enough.
pub ws_opt-stops : (ts : Text) → ws_item (ws_opt ts) ≡ none
unfolding ws_opt
ws_opt-stops ts = star-stops ws_item ws_item-lt (length ts) ts (omega arith)

or_fail-Leaves : (n : ℕ) (o : Option Text) → Within n o → Leaves n (or_fail o)
or_fail-Leaves n none h = refused
or_fail-Leaves n (some r) h = let le = ws_opt-le r in left tt _ (omega arith)

pub ws-Leaves : (ts : Text) → Leaves (length ts) (ws ts)
unfolding ws
ws-Leaves [] = unfold ws_item in refused
ws-Leaves (c ∷ ts) =
    or_fail-Leaves _ (ws_item (c ∷ ts))
      (Within-le _ _ (ws_item (c ∷ ts)) (omega arith) (ws_item-Within c ts))
