-- ===== src/Actions/Error.antt =====
-- What the sorter of opsiconfd/backend/rpc/obj_product_dependency.py can raise. `out_of_fuel` is
-- no exception of the program: it marks a recursion cut short by the model's fuel.
use opsiconfd.Prelude.{◌≡◌, refl, Bool, true, false}

pub data Error : Type 0 where
  product_not_available product_not_available_on_depot invalid_installation_status : Error
  attribute_error out_of_fuel : Error

-- The exceptions that `ignore_unavailable_products` passes over.
abbrev pub is_unavailable : Error → Bool
is_unavailable product_not_available = true
is_unavailable product_not_available_on_depot = true
is_unavailable _ = false

-- How a method of the sorter ends.
pub data Result {ℓ} (A : Type ℓ) : Type ℓ where
  raises : Error → Result A
  returns : A → Result A

module _ {ℓ κ} {A : Type ℓ} {B : Type κ} where
  infixl 5 ◌>>=◌
  abbrev pub ◌>>=◌ : Result A → (A → Result B) → Result B
  raises e >>= f = raises e
  returns a >>= f = f a

  pub >>=-eq-returns :
      (m : Result A) (f : A → Result B) {b : B}
      → (m >>= f) ≡ returns b
      → (a : A) × (m ≡ returns a) × (f a ≡ returns b)
  >>=-eq-returns (raises e) f h = cc
  >>=-eq-returns (returns a) f h = (a, refl, h)
