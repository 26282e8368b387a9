-- ===== src/Peg/Spans.antt =====
-- Greedy repetitions, where what follows stops them.
use dbcrossbar.Base.{ℕ, ◌≡◌, refl, Bool, true, false, [], ◌∷◌, ◌++◌, Text, all, and_both, arith}
use dbcrossbar.Peg.{span}

-- The next character, if there is one, fails the test.
abbrev pub StopsAt : (ℕ → Bool) → Text → Type 0
StopsAt p [] = Unit
StopsAt p (c ∷ r) = p c ≡ false

span_stop : (p : ℕ → Bool) (r : Text) → StopsAt p r → span p r ≡ ([], r)
unfolding span
span_stop p [] h = refl
span_stop p (c ∷ r) h = rw h

pub all-span : (p : ℕ → Bool) (ts : Text) → all p (span p ts).0 ≡ true
unfolding span
all-span p [] = refl
all-span p (c ∷ ts) = ground (arith, all-span p ts)

pub span-append :
    (p : ℕ → Bool) (xs r : Text) → all p xs ≡ true → StopsAt p r → span p (xs ++ r) ≡ (xs, r)
unfolding span
span-append p [] r h stop = span_stop p r stop
span-append p (x ∷ xs) r h stop =
    let (here, later) = and_both (p x) (all p xs) h in rw (here, span-append p xs r later stop)
