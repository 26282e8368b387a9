-- ===== src/Peg/Leaves.antt =====
-- How much input a rule leaves, and that it does not run out of fuel.
use dbcrossbar.Base.{
  ◌≢◌, ℕ, ◌≤◌, ◌+◌, ◌≡◌, Bool, Text, length, [], ◌∷◌, arith, inl, inr, Bool-cases, ◌==◌,
}
use dbcrossbar.Peg.{
  Peg, matched, failed, panicked, out_of_fuel, bind, orelse, span, literal, finish,
}

-- The rule has not run out, leaves at most `n` characters, and panics only if `P` holds.
pub data LeavesOr (P : Type 0) {A : Type 0} (n : ℕ) : Peg A → Type 0 where
  left : (a : A) (r : Text) → length r ≤ n → LeavesOr P n (matched a r)
  refused : LeavesOr P n failed
  crashed : P → LeavesOr P n panicked

-- The rule does not panic either.
abbrev pub Leaves : {A : Type 0} → ℕ → Peg A → Type 0
Leaves n p = LeavesOr ⊥ n p

-- The rule comes to a match or to a failure.
abbrev pub Answers : {A : Type 0} → Peg A → Type 0
Answers p = (p ≢ out_of_fuel) × (p ≢ panicked)

module _ {P : Type 0} {A : Type 0} {n : ℕ} where
  pub Leaves-orelse : {p q : Peg A} → LeavesOr P n p → LeavesOr P n q → LeavesOr P n (orelse p q)
  Leaves-orelse (left a r h) q = left a r h
  Leaves-orelse refused q = q
  Leaves-orelse (crashed x) q = crashed x

  pub Leaves-bind :
      {B : Type 0} {m : ℕ} {k : A → Text → Peg B} {p : Peg A}
      → LeavesOr P n p
      → ((a : A) (r : Text) → length r ≤ n → LeavesOr P m (k a r))
      → LeavesOr P m (bind p k)
  Leaves-bind (left a r h) f = f a r h
  Leaves-bind refused f = refused
  Leaves-bind (crashed x) f = crashed x

  pub Leaves-le : {m : ℕ} {p : Peg A} → n ≤ m → LeavesOr P n p → LeavesOr P m p
  Leaves-le le (left a r h) = left a r (omega arith)
  Leaves-le le refused = refused
  Leaves-le le (crashed x) = crashed x

  pub Leaves-out_of_fuel : {p : Peg A} → LeavesOr P n p → p ≡ out_of_fuel → ⊥
  Leaves-out_of_fuel (left a r h) e = cc
  Leaves-out_of_fuel refused e = cc
  Leaves-out_of_fuel (crashed x) e = cc

pub Leaves-Answers : {A : Type 0} {n : ℕ} {p : Peg A} → Leaves n p → Answers p
Leaves-Answers (left a r h) = (λ e. cc, λ e. cc)
Leaves-Answers refused = (λ e. cc, λ e. cc)
Leaves-Answers (crashed x) = absurd x

pub span-le : (p : ℕ → Bool) (ts : Text) → length (span p ts).1 ≤ length ts
unfolding span
span-le p [] = omega arith
span-le p (c ∷ ts) = ground (arith, span-le p ts)

-- A literal that matches takes its length away.
pub literal-Leaves :
    {P : Type 0} {B : Type 0} {m : ℕ} (k : Unit {0} → Text → Peg B) (p ts : Text)
    → ((r : Text) → length r + length p ≤ length ts → LeavesOr P m (k tt r))
    → LeavesOr P m (bind (literal p ts) k)
unfolding literal
literal-Leaves k [] ts next = next ts (omega arith)
literal-Leaves k (c ∷ p) [] next = refused
literal-Leaves k (c ∷ p) (b ∷ ts) next = elim (Bool-cases (c == b)) [
  | inl same ↦ rw same (literal-Leaves k p ts λ r h. next r (omega arith))
  | inr other ↦ rw other refused
]

pub finish-Answers : {A : Type 0} (m : Peg A) → Answers m → Answers (finish m)
finish-Answers (matched a []) h = h
finish-Answers (matched a (_ ∷ _)) h = (λ e. cc, λ e. cc)
finish-Answers failed h = h
finish-Answers panicked h = h
finish-Answers out_of_fuel h = h
