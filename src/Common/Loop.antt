-- ===== src/Common/Loop.antt =====
-- `loop`, whose rounds may fail, and when it ends.
use Prim.Native.Nat.{ℕ, zero, suc, ◌≤◌, ◌<◌}
use mathlib.Core.Path.{◌≡◌, refl}
use mathlib.Core.Logic.{inl, inr}
use mathlib.Core.Option.{Option, none, some}
use native.Mathlib.Omega.{arith}
use vo_e.Common.Results.{Outcome, ok, err, Outcome-cases, ErrorKind}
use vo_e.Common.Io.{Io, ◌>>=◌}

-- How a round of a loop ends.
pub data Turn : Type 0 where
  goes_on : Turn
  returns : Turn

-- What follows a round.
abbrev pub after_round :
    {C : Type 0}
    → Outcome ErrorKind Turn
    → C
    → Option (Outcome ErrorKind (Unit {0}) × C)
    → Option (Outcome ErrorKind (Unit {0}) × C)
after_round (ok Turn.goes_on) c rest = rest
after_round (ok Turn.returns) c rest = some (ok tt, c)
after_round (err e) c rest = some (err e, c)

-- `loop`, on fuel: `none` when the fuel runs out.
unfoldable pub loop :
    {C : Type 0} → ℕ → Io C ErrorKind Turn → C → Option (Outcome ErrorKind (Unit {0}) × C)
loop zero round c = none
loop (suc fuel) round c =
    let rest = loop fuel round (round c).1 in after_round (round c).0 (round c).1 rest

-- A loop that ended, with a state that is not larger.
abbrev pub Ends : {C : Type 0} → (C → ℕ) → Option (Outcome ErrorKind (Unit {0}) × C) → C → Type 0
Ends {C} size o c = (r : Outcome ErrorKind (Unit {0}) × C) × (o ≡ some r) × (size r.1 ≤ size c)

-- Rounds that go on make something smaller, and no round makes it larger: with fuel for its size,
-- the loop ends, and has not made it larger.
pub loop-Ends :
    {C : Type 0} (size : C → ℕ) (round : Io C ErrorKind Turn)
    → ((c : C) → (round c).0 ≡ ok Turn.goes_on → size (round c).1 < size c)
    → ((c : C) → size (round c).1 ≤ size c)
    → (fuel : ℕ) (c : C) → size c < fuel
    → Ends size (loop fuel round c) c
unfolding loop
loop-Ends size round shrinks keeps zero c h = absurd (omega (arith, h))
loop-Ends {C} size round shrinks keeps (suc fuel) c h =
    go (round c).0 refl (loop-Ends size round shrinks keeps fuel (round c).1)
  where
    rest : Option (Outcome ErrorKind (Unit {0}) × C)
    rest = loop fuel round (round c).1

    go :
        (o : Outcome ErrorKind Turn)
        → (round c).0 ≡ o
        → (size (round c).1 < fuel → Ends size rest (round c).1)
        → Ends size (after_round o (round c).1 rest) c
    go (err e) p later = ((err e, (round c).1), refl, keeps c)
    go (ok Turn.returns) p later = ((ok tt, (round c).1), refl, keeps c)
    go (ok Turn.goes_on) p later =
        let (r, ends, smaller) = later (omega (arith, h, shrinks c p)) in
        (r, ends, omega (arith, smaller, keeps c))

-- What a sequence does to a size.
module _ {S E A B : Type 0} (size : S → ℕ) (m : Io S E A) (f : A → Io S E B) where
  pub >>=_shrinks :
      ((s : S) → size (m s).1 ≤ size s)
      → ((a : A) (s : S) → size (f a s).1 ≤ size s)
      → (s : S) → size ((m >>= f) s).1 ≤ size s
  >>=_shrinks first rest s = elim (Outcome-cases (m s).0) [
    | inl (a, e) ↦ rw e (omega (arith, first s, rest a (m s).1))
    | inr (k, e) ↦ rw e (first s)
  ]

  pub >>=_shrinks_ok :
      ((s : S) (a : A) → (m s).0 ≡ ok a → size (m s).1 < size s)
      → ((a : A) (s : S) → size (f a s).1 ≤ size s)
      → (s : S) (b : B) → ((m >>= f) s).0 ≡ ok b
      → size ((m >>= f) s).1 < size s
  >>=_shrinks_ok first rest s b done = elim (Outcome-cases (m s).0) [
    | inl (a, e) ↦ rw e (omega (arith, first s a e, rest a (m s).1))
    | inr (k, e) ↦ absurd (let bad : ◌≡◌ {A = Outcome E B} (err k) (ok b) = rw e at done in cc)
  ]
