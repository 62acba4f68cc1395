-- ===== src/Server/Target/Table.antt =====
-- The map of targets: what a replaced entry leaves alone.
use vo_e.Common.{
  ==_iff, ◌≡◌, ◌≢◌, sym, ap, ◌∙◌, subst, arith, true, false, Bool-cases, inl, inr, some, [], ◌∷◌,
  if◌then◌else◌,
}
use vo_e.Server.Target.{TargetAddr, addr_eq, Target, Targets, find, replace, keys}

pub addr_eq_self : (a : TargetAddr) → addr_eq a a ≡ true
addr_eq_self a = ground (arith, ==_iff a.shelf a.shelf, ==_iff a.slot a.slot)

pub addr_eq→≡ : (a b : TargetAddr) → addr_eq a b ≡ true → a ≡ b
addr_eq→≡ a b h =
    let shelves : a.shelf ≡ b.shelf = ground (arith, h) in
    let slots : a.slot ≡ b.slot = ground (arith, h) in cc (shelves, slots)

pub addr_eq_ne : (a b : TargetAddr) → a ≢ b → addr_eq a b ≡ false
addr_eq_ne a b h = elim (Bool-cases (addr_eq a b)) [
  | inl e ↦ absurd (h (addr_eq→≡ a b e))
  | inr e ↦ e
]

module _ {S : Type 0} (a : TargetAddr) (t : Target S) where
  pub find-replace_self : (ts : Targets S) → find a (replace a t ts) ≡ some t
  find-replace_self [] = rw (addr_eq_self a)
  find-replace_self ((b, u) ∷ ts) = elim (Bool-cases (addr_eq a b)) [
    | inl e ↦ rw (e, e)
    | inr e ↦ rw (e, e) (find-replace_self ts)
  ]

  pub find-replace_other :
      (b : TargetAddr) (ts : Targets S) → b ≢ a → find b (replace a t ts) ≡ find b ts
  find-replace_other b [] h = rw (addr_eq_ne b a h)
  find-replace_other b ((c, u) ∷ ts) h = elim (Bool-cases (addr_eq a c)) [
    | inl e ↦ rw (e, addr_eq_ne b c (λ same. h (same ∙ sym (addr_eq→≡ a c e))))
    | inr e ↦ rw e (ap (λ r. if addr_eq b c then some u else r) (find-replace_other b ts h))
  ]

  pub keys-replace :
      (ts : Targets S) {u : Target S} → find a ts ≡ some u → keys (replace a t ts) ≡ keys ts
  keys-replace [] h = cc
  keys-replace ((b, v) ∷ ts) {u} h = elim (Bool-cases (addr_eq a b)) [
    | inl e ↦ rw e
    | inr e ↦ rw e (
        ap (λ r. b ∷ r)
          (keys-replace ts {u = u} (subst (λ x. (if x then some v else find a ts) ≡ some u) e h)))
  ]
