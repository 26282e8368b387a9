-- ===== src/TypeScript/Grammar/Gaps.antt =====
-- `ws()?` skips a gap of blanks and comments, and stops behind it.
use dbcrossbar.Base.{
  ℕ, zero, suc, ◌≤◌, true, false, [], ◌∷◌, ◌++◌, none, some, Text, codes, all, ◌≡◌, refl, length,
  arith, strip_prefix, append_assoc, ◌==◌,
}
use dbcrossbar.BigQuery.Grammar.{is_name_start, is_name_part, is_blank}
use dbcrossbar.Peg.Repeats.{star}
use dbcrossbar.Peg.Spans.{StopsAt}
use dbcrossbar.TypeScript.Grammar.{skip_line, skip_block, ws_item, ws_opt}
use dbcrossbar.TypeScript.Grammar.Spelling.{
  Gap, nothing, blank, line, block, IsInner, is_no_newline,
}

pub skip_line-append : (s r : Text) → all is_no_newline s ≡ true → skip_line (s ++ (10 ∷ r)) ≡ r
unfolding skip_line
skip_line-append [] r h = refl
skip_line-append (c ∷ s) r h = ground (arith, skip_line-append s r)

strip_none-append :
    (c : ℕ) (s r : Text)
    → strip_prefix (codes "*/") (c ∷ (s ++ codes "*/")) ≡ none
    → strip_prefix (codes "*/") (c ∷ (s ++ (codes "*/" ++ r))) ≡ none
unfolding strip_prefix
strip_none-append c [] r h = ground arith
strip_none-append c (d ∷ s) r h = ground arith

pub skip_block-append : (s r : Text) → IsInner s → skip_block (s ++ (codes "*/" ++ r)) ≡ some r
unfolding skip_block
skip_block-append [] r h = unfold strip_prefix in refl
skip_block-append (c ∷ s) r (here, h) = rw (strip_none-append c s r here) (skip_block-append s r h)

pub ws_item-blank : (c : ℕ) (r : Text) → is_blank c ≡ true → ws_item (c ∷ r) ≡ some r
unfolding ws_item
ws_item-blank c r h = rw h

length-behind : (s p w r : Text) → length (w ++ r) ≤ length ((s ++ (p ++ w)) ++ r)
length-behind [] [] w r = omega arith
length-behind [] (c ∷ p) w r = omega (arith, length-behind [] p w r)
length-behind (c ∷ s) p w r = omega (arith, length-behind s p w r)

-- Fuel for the whole text is more than is used.
star-Gap :
    {w : Text} (r : Text)
    → Gap w
    → ws_item r ≡ none
    → (f : ℕ) → length (w ++ r) ≤ f
    → star ws_item f (w ++ r) ≡ r
unfolding star ws_item
star-Gap r nothing stop zero h = refl
star-Gap r nothing stop (suc f) h = rw stop
star-Gap r (blank c b g) stop zero h = absurd (omega arith)
star-Gap r (blank c b g) stop (suc f) h =
    rw (ws_item-blank c _ b) (star-Gap r g stop f (omega arith))
star-Gap r (line s c g) stop zero h = absurd (omega arith)
star-Gap r (line {w} s c g) stop (suc f) h =
    rw (append_assoc s (10 ∷ w) r, skip_line-append s (w ++ r) c)
      (star-Gap r g stop f (omega (arith, length-behind s (10 ∷ []) w r)))
star-Gap r (block s c g) stop zero h = absurd (omega arith)
star-Gap r (block {w} s c g) stop (suc f) h =
    rw (append_assoc s (codes "*/" ++ w) r, skip_block-append s (w ++ r) c)
      (star-Gap r g stop f (omega (arith, length-behind s (codes "*/") w r)))

pub ws_opt-Gap : {w : Text} (r : Text) → Gap w → ws_item r ≡ none → ws_opt (w ++ r) ≡ r
unfolding ws_opt
ws_opt-Gap {w} r g stop = star-Gap r g stop (length (w ++ r)) (omega arith)

-- What begins with a letter, or with a sign that is neither a slash nor a blank, is no gap.
pub no_gap : (c : ℕ) (r : Text) → is_blank c ≡ false → (c == 47) ≡ false → ws_item (c ∷ r) ≡ none
unfolding ws_item strip_prefix
no_gap c r b s = ground arith

pub name_start-no_gap : (c : ℕ) (r : Text) → is_name_start c ≡ true → ws_item (c ∷ r) ≡ none
name_start-no_gap c r h = no_gap c r (ground arith) (ground arith)

-- A gap is no part of a name.
pub Gap-StopsAt :
    {w : Text} (c : ℕ) (r : Text)
    → Gap w
    → is_name_part c ≡ false
    → StopsAt is_name_part (w ++ (c ∷ r))
Gap-StopsAt c r nothing h = h
Gap-StopsAt c r (blank b e g) h = ground arith
Gap-StopsAt c r (line s e g) h = refl
Gap-StopsAt c r (block s e g) h = refl
