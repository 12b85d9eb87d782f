-- ===== src/Actions/Walk/Rule.antt =====
-- A proof rule for `process_dependencies`: what each change of the state keeps, the walk keeps.
use opsiconfd.Prelude.{
  ℕ, zero, suc, String, ◌≡◌, refl, List, [], ◌∷◌, ◌++◌, Option, none, some, Bool, true, false, not,
  ◌||◌, ◌&&◌, arith, if◌then◌else◌, ◌==◌, Bool-cases, Option-cases, inl, inr,
}
use opsiconfd.Prelude.Text.{truthy, contains}
use opsiconfd.Actions.Data.{ProductDependency, Product, Action}
use opsiconfd.Actions.Error.{Error, Result, returns, raises, is_unavailable, ◌>>=◌}
use opsiconfd.Actions.Walk.{
  Lookups, Sorter, State, add_unsorted, find_product, register, require, register_hard,
  follow_required, with_required, with_product, follow_dependency, process_dependency, process_all,
  process_dependencies,
}

-- The result, if there is one, has the property.
abbrev pub OnOk {ℓ} : {A : Type ℓ} → (A → Type 0) → Result A → Type 0
OnOk P (returns a) = P a
OnOk P (raises e) = Unit

pub OnOk-if {ℓ} :
    {A : Type ℓ} (P : A → Type 0) (b : Bool) (m n : Result A)
    → (b ≡ true → OnOk P m)
    → (b ≡ false → OnOk P n)
    → OnOk P (if b then m else n)
OnOk-if P true m n hm hn = hm refl
OnOk-if P false m n hm hn = hn refl

pub OnOk-bind {ℓ κ} :
    {A : Type ℓ} {B : Type κ} (P : A → Type 0) (Q : B → Type 0) (m : Result A) (f : A → Result B)
    → OnOk P m
    → ((a : A) → P a → OnOk Q (f a))
    → OnOk Q (m >>= f)
OnOk-bind P Q (returns a) f h k = k a h
OnOk-bind P Q (raises e) f h k = tt

pub OnOk-imp {ℓ} :
    {A : Type ℓ} (P Q : A → Type 0) (f : (a : A) → P a → Q a) (m : Result A) → OnOk P m → OnOk Q m
OnOk-imp P Q f (returns a) h = f a h
OnOk-imp P Q f (raises e) h = tt

pub or-false : (a b : Bool) → (a || b) ≡ false → b ≡ false
or-false a b h = ground arith

module _ (l : Lookups) (ignore : Bool) where
  pub record Keeps (P : State → Type 0) : Type 0 where
    pub enter : (k : String) (path : List String) (s : Sorter) → P (path, s) → P (path ++ k ∷ [], s)
    pub adds :
        (d : ProductDependency) (dep_product : Product) (a : Action) (path : List String)
        (s : Sorter)
        → find_product l d.required_product_id d.required_product_version d.required_package_version
          ≡ returns dep_product
        → contains d.required_product_id path ≡ false
        → a.product_id ≡ dep_product.id
        → P (path, s)
        → P (path, add_unsorted a s)
    pub registers :
        (a : Action) (product : Product) (d : ProductDependency) (dep_product : Product)
        (path : List String) (s : Sorter)
        → find_product l a.product_id none none ≡ returns product
        → find_product l d.required_product_id d.required_product_version d.required_package_version
          ≡ returns dep_product
        → contains d.required_product_id path ≡ false
        → P (path, s)
        → P (path, register l a product d dep_product s)

  module _ {P : State → Type 0} (keeps : Keeps P) where
    module _ (follow : Action → State → Result State)
        (ih : (a : Action) (st : State) → P st → OnOk P (follow a st)) where
      require_keeps :
          (dep_product : Product) (required : String) (path : List String) (s : Sorter)
          → ((b : Action) → b.product_id ≡ dep_product.id → P (path, add_unsorted b s))
          → P (path, s)
          → OnOk P (require l ignore follow dep_product required (path, s))
      unfolding require
      require_keeps dep_product required path s added p =
          elim (Option-cases (dep_product.script required)) [
            | inl e ↦ rw (e, require) tt
            | inr (script, e) ↦
                rw (e, require)
                  (OnOk-if P (truthy script) _ _ (λ _. ih _ _ (added _ refl)) (λ _. p))
          ]

      outcome_keeps :
          (dep_product : Product) (r : Result (Option String)) (path : List String) (s : Sorter)
          → ((b : Action) → b.product_id ≡ dep_product.id → P (path, add_unsorted b s))
          → P (path, s)
          → OnOk P (follow_required l ignore follow dep_product r (path, s))
      unfolding follow_required
      outcome_keeps dep_product (raises e) path s added p = tt
      outcome_keeps dep_product (returns none) path s added p = p
      outcome_keeps dep_product (returns (some required)) path s added p =
          require_keeps dep_product required path s added p

      unavailable_keeps :
          (e : Error) (st : State)
          → P st
          → OnOk P (if is_unavailable e && ignore then returns st else raises e)
      unavailable_keeps e st p = OnOk-if P _ (returns st) (raises e) (λ _. p) (λ _. tt)

      register_hard_keeps :
          (a : Action) (product : Product) (d : ProductDependency) (dep_product : Product)
          (path : List String) (s : Sorter)
          → find_product l a.product_id none none ≡ returns product
          → find_product l d.required_product_id d.required_product_version
              d.required_package_version
            ≡ returns dep_product
          → contains d.required_product_id path ≡ false
          → P (path, s)
          → P (path, register_hard l a product d dep_product s)
      unfolding register_hard
      register_hard_keeps a product d dep_product path s found dep_found new p =
          elim (Bool-cases (truthy d.requirement_type)) [
            | inl hard ↦
                rw (hard, register_hard)
                  (keeps.registers a product d dep_product path s found dep_found new p)
            | inr soft ↦ rw (soft, register_hard) p
          ]

      module _ (a : Action) (product : Product)
          (found : find_product l a.product_id none none ≡ returns product) where
        with_required_keeps :
            (d : ProductDependency) (r : Result Product) (path : List String) (s : Sorter)
            → find_product l d.required_product_id d.required_product_version
                d.required_package_version
              ≡ r
            → contains d.required_product_id path ≡ false
            → P (path, s)
            → OnOk P (with_required l ignore follow a product d r (path, s))
        unfolding with_required follow_dependency
        with_required_keeps d (raises e) path s e' new p = unavailable_keeps e (path, s) p
        with_required_keeps d (returns dep_product) path s e' new p =
            let registered = register_hard_keeps a product d dep_product path s found e' new p in
            outcome_keeps dep_product _ path _
              (λ b own. keeps.adds d dep_product b path _ e' new own registered) registered

        process_dependency_keeps :
            (d : ProductDependency) (path : List String) (s : Sorter)
            → P (path, s)
            → OnOk P (process_dependency l ignore follow a product d (path, s))
        unfolding process_dependency
        process_dependency_keeps d path s p =
            let other = not (d.product_action == a.action) in
            let seen = contains d.required_product_id path in
            OnOk-if P (other || seen) (returns (path, s)) _ (λ _. p)
              (λ go. with_required_keeps d _ path s refl (or-false other seen go) p)

        process_all_keeps :
            (ds : List ProductDependency) (st : State)
            → P st
            → OnOk P (process_all l ignore follow a product ds st)
        unfolding process_all
        process_all_keeps [] st p = p
        process_all_keeps (d ∷ ds) (path, s) p =
            OnOk-bind P P (process_dependency l ignore follow a product d (path, s)) _
              (process_dependency_keeps d path s p) (λ st' q. process_all_keeps ds st' q)

      pub with_product_keeps :
          (a : Action) (r : Result Product) (st : State)
          → find_product l a.product_id none none ≡ r
          → P st
          → OnOk P (with_product l ignore follow a r st)
      unfolding with_product
      with_product_keeps a (raises e) st found p = unavailable_keeps e st p
      with_product_keeps a (returns product) st found p = process_all_keeps a product found _ st p

    -- `process_dependencies` keeps what each change of the state keeps.
    pub process_dependencies_keeps :
        (fuel : ℕ) (a : Action) (st : State)
        → P st
        → OnOk P (process_dependencies l ignore fuel a st)
    unfolding process_dependencies
    process_dependencies_keeps zero a st p = tt
    process_dependencies_keeps (suc fuel) a (path, s) p =
        with_product_keeps (process_dependencies l ignore fuel) (process_dependencies_keeps fuel) a
          _ _ refl (keeps.enter a.product_id path s p)
