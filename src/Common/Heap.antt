-- ===== src/Common/Heap.antt =====
-- Functions with one value replaced: heaps of objects, and vectors of counters.
use mathlib.Core.Path.{◌≡◌, ap, ◌∙◌, subst}
use mathlib.Core.Logic.{ite, ◌≢◌}
use native.Mathlib.Omega.{arith}

module _ {ℓ} {K A : Type ℓ} (dec : Discrete K) where
  unfoldable pub update : (K → A) → K → A → K → A
  update h k a j = ite (dec k j) a (h j)

  pub update_self : (h : K → A) (k : K) (a : A) → update h k a k ≡ a
  unfolding update
  update_self h k a = ground arith

  pub update_ne : (h : K → A) (k j : K) (a : A) → k ≢ j → update h k a j ≡ h j
  unfolding update
  update_ne h k j a n = ground arith

  -- A reading of the values that the new value shares with the old one.
  pub update-ap {κ} :
      {B : Type κ} (f : A → B) (h : K → A) (k j : K) (a : A)
      → f a ≡ f (h k)
      → f (update h k a j) ≡ f (h j)
  update-ap f h k j a e = elim (dec k j) [
    | yes p ↦ subst (λ i. f (update h k a i) ≡ f (h i)) p (ap f (update_self h k a) ∙ e)
    | no n ↦ ap f (update_ne h k j a n)
  ]
