-- ===== src/Base/Sums.antt =====
-- Sums over rows, however the rows are arranged.
use Prim.Native.Nat.{ℕ}
use native.Mathlib.Nat.{ℕ_set}
use native.Mathlib.Omega.{arith}
use mathlib.Core.Path.{◌≡◌, refl, ap, ◌∙◌}
use mathlib.Core.Logic.{∥∥₁_elim, ∥∥₁_map}
use mathlib.Core.List.{List, [], ◌∷◌, map, Perm, Permᴰ}
use dpg_business_app_starter.Base.Lists.{sum_by}

module _ {ℓ κ} {A : Type ℓ} {B : Type κ} where
  pub sum_by-map :
      (f : B → ℕ) (g : A → B) (xs : List A) → sum_by f (map g xs) ≡ sum_by (λ x. f (g x)) xs
  sum_by-map f g [] = refl
  sum_by-map f g (x ∷ xs) = omega (arith, sum_by-map f g xs)

module _ {ℓ} {A : Type ℓ} (f : A → ℕ) where
  sum_by-Permᴰ : {xs ys : List A} → Permᴰ xs ys → sum_by f xs ≡ sum_by f ys
  sum_by-Permᴰ Permᴰ.nil = refl
  sum_by-Permᴰ (Permᴰ.cons e d) = omega (arith, ap f e, sum_by-Permᴰ d)
  sum_by-Permᴰ (Permᴰ.swap e d) = omega (arith, ap f e, ap f d)
  sum_by-Permᴰ (Permᴰ.trans d e) = sum_by-Permᴰ d ∙ sum_by-Permᴰ e

  pub sum_by-Perm : {xs ys : List A} → Perm xs ys → sum_by f xs ≡ sum_by f ys
  sum_by-Perm p = ∥∥₁_elim p (ℕ_set _ _) sum_by-Permᴰ

module _ {ℓ κ} {A : Type ℓ} {B : Type κ} (f : A → B) where
  Permᴰ-map : {xs ys : List A} → Permᴰ xs ys → Permᴰ (map f xs) (map f ys)
  Permᴰ-map Permᴰ.nil = Permᴰ.nil
  Permᴰ-map (Permᴰ.cons e d) = Permᴰ.cons (ap f e) (Permᴰ-map d)
  Permᴰ-map (Permᴰ.swap e d) = Permᴰ.swap (ap f e) (ap f d)
  Permᴰ-map (Permᴰ.trans d e) = Permᴰ.trans (Permᴰ-map d) (Permᴰ-map e)

  pub Perm-map : {xs ys : List A} → Perm xs ys → Perm (map f xs) (map f ys)
  Perm-map p = ∥∥₁_map p Permᴰ-map
