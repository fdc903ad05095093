-- ===== src/Prelude/Conflicts.antt =====
-- Lists whose rows do not conflict with one another, as a unique constraint keeps them.
use mathlib.Core.Path.{◌≡◌, refl}
use mathlib.Core.Bool.{Bool, false}
use mathlib.Core.List.{List, [], ◌∷◌, ◌++◌}
use native.Mathlib.Omega.{arith}
use dataveda_nifty_agent.Prelude.Lists.{any, any-append}

module _ {ℓ} {A : Type ℓ} (conflict : A → A → Bool) where
  abbrev pub Unique : List A → Type 0
  Unique [] = Unit
  Unique (x ∷ xs) = (any (conflict x) xs ≡ false) × Unique xs

  abbrev pub IsSymmetric : Type ℓ
  IsSymmetric = (x y : A) → conflict x y ≡ conflict y x

module _ {ℓ} {A : Type ℓ} (conflict : A → A → Bool) (symmetric : IsSymmetric conflict) where
  -- A row that conflicts with none may be added.
  pub Unique-append :
      (xs : List A) (x : A)
      → Unique conflict xs
      → any (conflict x) xs ≡ false
      → Unique conflict (xs ++ x ∷ [])
  Unique-append [] x h k = (refl, tt)
  Unique-append (y ∷ xs) x (fresh, h) k =
      ground (arith, Unique-append xs x h, any-append (conflict y) xs (x ∷ []), symmetric x y)
