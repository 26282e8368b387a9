-- ===== src/Peg/Outcome.antt =====
-- What a rule comes to, unless its fuel runs out: a given match, or a failure.
use dbcrossbar.Base.{◌≡◌, refl, Text, subst, sym}
use dbcrossbar.Peg.{Peg, matched, failed, out_of_fuel, bind, orelse}

pub data Yields {A : Type 0} (a : A) (rest : Text) : Peg A → Type 0 where
  done : Yields a rest (matched a rest)
  gave_up : Yields a rest out_of_fuel

pub data Rejects {A : Type 0} : Peg A → Type 0 where
  no_match : Rejects failed
  broke_off : Rejects out_of_fuel

module _ {A : Type 0} {a : A} {r : Text} where
  pub Yields-eq : {m : Peg A} → m ≡ matched a r → Yields a r m
  Yields-eq e = subst (Yields a r) (sym e) done

  pub Yields-orelse_left : {p : Peg A} (q : Peg A) → Yields a r p → Yields a r (orelse p q)
  Yields-orelse_left q done = done
  Yields-orelse_left q gave_up = gave_up

  pub Yields-orelse_right : {p q : Peg A} → Rejects p → Yields a r q → Yields a r (orelse p q)
  Yields-orelse_right no_match y = y
  Yields-orelse_right broke_off y = gave_up

  module _ {B : Type 0} (k : A → Text → Peg B) where
    pub Yields-bind :
        {b : B} {r' : Text} {m : Peg A}
        → Yields a r m
        → Yields b r' (k a r)
        → Yields b r' (bind m k)
    Yields-bind done y = y
    Yields-bind gave_up y = gave_up

    pub Rejects-bind : {m : Peg A} → Yields a r m → Rejects (k a r) → Rejects (bind m k)
    Rejects-bind done y = y
    Rejects-bind gave_up y = broke_off

pub Rejects-bind_first :
    {A B : Type 0} (k : A → Text → Peg B) {m : Peg A} → Rejects m → Rejects (bind m k)
Rejects-bind_first k no_match = no_match
Rejects-bind_first k broke_off = broke_off

-- With fuel to spare, the match is made.
pub Yields-matched :
    {A : Type 0} {a : A} {r : Text} {m : Peg A}
    → Yields a r m
    → (m ≡ out_of_fuel → ⊥)
    → m ≡ matched a r
Yields-matched done h = refl
Yields-matched gave_up h = absurd (h refl)

pub bind-matched :
    {A B : Type 0} {a : A} {r : Text} {m : Peg A} {p : Peg B} (k : A → Text → Peg B)
    → m ≡ matched a r
    → k a r ≡ p
    → bind m k ≡ p
bind-matched k h e = rw h e

pub orelse-matched :
    {A : Type 0} {a : A} {r : Text} {m : Peg A} (q : Peg A)
    → m ≡ matched a r
    → orelse m q ≡ matched a r
orelse-matched q h = rw h refl
