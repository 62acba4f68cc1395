-- ===== src/Common/Results.antt =====
-- `Result<A, E>` of the source, with its `?`.
use mathlib.Core.Path.{◌≡◌, refl}
use mathlib.Core.Logic.{◌⊎◌, inl, inr}
use mathlib.Core.Option.{Option, some}

pub data Outcome {ℓ κ} (E : Type ℓ) (A : Type κ) : Type (ℓ ⊔ κ) where
  ok : A → Outcome E A
  err : E → Outcome E A

infixl 5 ◌>>=◌ ◌>>◌
abbrev pub ◌>>=◌ : {E A B : Type 0} → Outcome E A → (A → Outcome E B) → Outcome E B
ok a >>= f = f a
err e >>= f = err e

abbrev pub ◌>>◌ : {E A B : Type 0} → Outcome E A → Outcome E B → Outcome E B
m >> k = m >>= λ _. k

-- `map_err`
abbrev pub map_err : {E F A : Type 0} → (E → F) → Outcome E A → Outcome F A
map_err f (ok a) = ok a
map_err f (err e) = err (f e)

pub >>=-eq-ok :
    {E A C : Type 0} (r : Outcome E A) (k : A → Outcome E C) {c : C}
    → (r >>= k) ≡ ok c
    → (x : A) × (r ≡ ok x) × (k x ≡ ok c)
>>=-eq-ok (ok x) k returned = (x, refl, returned)
>>=-eq-ok (err failure) k returned = cc

-- The `std::io::ErrorKind`s that the source names; `other` is any other.
pub data ErrorKind : Type 0 where
  unexpected_eof invalid_data connection_aborted other : ErrorKind

pub >>=_cong :
    {E A B : Type 0} (m : Outcome E A) {f g : A → Outcome E B}
    → ((a : A) → f a ≡ g a)
    → (m >>= f) ≡ (m >>= g)
>>=_cong (ok a) h = h a
>>=_cong (err e) h = refl

pub ok_inj : {E A : Type 0} {a b : A} → ◌≡◌ {A = Outcome E A} (ok a) (ok b) → a ≡ b
ok_inj h = cc

pub some_inj : {A : Type 0} {a b : A} → ◌≡◌ {A = Option A} (some a) (some b) → a ≡ b
some_inj h = cc

pub Outcome-cases :
    {E A : Type 0} (r : Outcome E A) → ((a : A) × (r ≡ ok a)) ⊎ ((e : E) × (r ≡ err e))
Outcome-cases (ok a) = inl (a, refl)
Outcome-cases (err e) = inr (e, refl)

pub map_err-eq-ok :
    {E F A : Type 0} (g : E → F) (r : Outcome E A) {a : A} → map_err g r ≡ ok a → r ≡ ok a
map_err-eq-ok g (ok a) h = cc
map_err-eq-ok g (err e) h = cc

pub map_err-eq-err :
    {E F A : Type 0} (g : E → F) (r : Outcome E A) {f : F}
    → map_err g r ≡ err f
    → (e : E) × (r ≡ err e)
map_err-eq-err g (ok a) h = cc
map_err-eq-err g (err e) h = (e, refl)
