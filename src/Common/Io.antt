-- ===== src/Common/Io.antt =====
-- Code that changes a state and may fail. What was changed before a failure stays changed, so the
-- state comes back beside the error too.
use mathlib.Core.Path.{◌≡◌, refl, ◌∙◌}
use vo_e.Common.Results.{Outcome, ok, err, map_err as map_err_of}

abbrev pub Io : Type 0 → Type 0 → Type 0 → Type 0
Io S E A = S → Outcome E A × S

module _ {S E A : Type 0} where
  abbrev pub pure : A → Io S E A
  pure a s = (ok a, s)

  abbrev pub fail : E → Io S E A
  fail e s = (err e, s)

  abbrev pub lift : Outcome E A → Io S E A
  lift r s = (r, s)

module _ {S E A B : Type 0} where
  abbrev pub and_then : Outcome E A → (A → Io S E B) → Io S E B
  and_then (ok a) f s = f a s
  and_then (err e) f s = (err e, s)

  infixl 5 ◌>>=◌ ◌>>◌
  abbrev pub ◌>>=◌ : Io S E A → (A → Io S E B) → Io S E B
  ◌>>=◌ m f s = and_then (m s).0 f (m s).1

  abbrev pub ◌>>◌ : Io S E A → Io S E B → Io S E B
  m >> k = m >>= λ _. k

  -- A sequence goes on from where its first part returned.
  pub bind_ok :
      (m : Io S E A) (f : A → Io S E B) (s : S) {a : A} → (m s).0 ≡ ok a → (m >>= f) s ≡ f a (m s).1
  bind_ok m f s e = rw e

  pub >>=-eq-ok :
      (m : Io S E A) (f : A → Io S E B) (s : S) {b : B}
      → ((m >>= f) s).0 ≡ ok b
      → (a : A) × ((m s).0 ≡ ok a) × ((f a (m s).1).0 ≡ ok b)
  >>=-eq-ok m f s h = split (m s).0 (m s).1 h
    where
      split :
          (r : Outcome E A) (u : S) {b : B}
          → (and_then r f u).0 ≡ ok b
          → (a : A) × (r ≡ ok a) × ((f a u).0 ≡ ok b)
      split (ok a) u h = (a, refl, h)
      split (err e) u h = cc

-- A last `pure` changes no state and fails nowhere.
module _ {S E A B : Type 0} where
  pub and_then-pure_state : (r : Outcome E A) (b : B) (s : S) → (and_then r (λ _. pure b) s).1 ≡ s
  and_then-pure_state (ok a) b s = refl
  and_then-pure_state (err e) b s = refl

  pub and_then-map_state :
      (r : Outcome E A) (f : A → B) (s : S) → (and_then r (λ a. pure (f a)) s).1 ≡ s
  and_then-map_state (ok a) f s = refl
  and_then-map_state (err e) f s = refl

module _ {S E B : Type 0} where
  pub and_then-pure_ok :
      (r : Outcome E (Unit {0})) (b : B) (s : S) {c : B}
      → (and_then r (λ _. pure b) s).0 ≡ ok c
      → (r ≡ ok tt) × (c ≡ b)
  and_then-pure_ok (ok tt) b s h = (refl, cc)
  and_then-pure_ok (err e) b s h = cc

-- What every part of a sequence leaves alone, the sequence leaves alone.
module _ {S E V : Type 0} (view : S → V) (m : Io S E (Unit {0})) (k : Io S E (Unit {0}))
    (first : (s : S) → view (m s).1 ≡ view s) where
  pub >>_keeps : ((s : S) → view (k s).1 ≡ view s) → (s : S) → view ((m >> k) s).1 ≡ view s
  >>_keeps rest s = go (m s).0
    where
      go : (r : Outcome E (Unit {0})) → view (and_then r (λ _. k) (m s).1).1 ≡ view s
      go (ok a) = rest (m s).1 ∙ first s
      go (err e) = first s

  -- The same of a sequence that fails.
  pub >>_keeps_err :
      ((s : S) (e : E) → (k s).0 ≡ err e → view (k s).1 ≡ view s)
      → (s : S) (e : E) → ((m >> k) s).0 ≡ err e
      → view ((m >> k) s).1 ≡ view s
  >>_keeps_err rest s e h = go (m s).0 h
    where
      go :
          (r : Outcome E (Unit {0}))
          → (and_then r (λ _. k) (m s).1).0 ≡ err e
          → view (and_then r (λ _. k) (m s).1).1 ≡ view s
      go (ok a) h' = rest (m s).1 e h' ∙ first s
      go (err e') h' = first s

module _ {S E : Type 0} (m : Io S E (Unit {0})) (k : Io S E (Unit {0})) where
  -- A sequence that returned: so did both parts.
  pub >>-eq-ok :
      (s : S)
      → ((m >> k) s).0 ≡ ok tt
      → ((m s).0 ≡ ok tt) × ((k (m s).1).0 ≡ ok tt) × ((m >> k) s ≡ k (m s).1)
  >>-eq-ok s h = go (m s).0 h
    where
      go :
          (r : Outcome E (Unit {0}))
          → (and_then r (λ _. k) (m s).1).0 ≡ ok tt
          → (r ≡ ok tt) × ((k (m s).1).0 ≡ ok tt) × (and_then r (λ _. k) (m s).1 ≡ k (m s).1)
      go (ok tt) h' = (refl, h', refl)
      go (err e) h' = cc

-- `map_err`
abbrev pub map_err : {S E F A : Type 0} → (E → F) → Io S E A → Io S F A
map_err g m s = (map_err_of g (m s).0, (m s).1)
