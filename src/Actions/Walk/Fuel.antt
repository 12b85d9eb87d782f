-- ===== src/Actions/Walk/Fuel.antt =====
-- `process_dependencies` ends: no product is entered twice, so the path cannot outgrow the
-- products that some dependency requires.
use opsiconfd.Actions.Walk.Path.{missing, missing-append, missing-snoc, missing-le}
use native.Mathlib.Nat.{le_refl, le_trans}
use opsiconfd.Prelude.{
  subst, ℕ, zero, suc, ◌≤◌, ◌<◌, String, ◌≡◌, ◌≢◌, refl, inl, inr, List, [], ◌∷◌, ◌++◌, Option,
  none, some, Bool, true, false, not, ◌||◌, ◌&&◌, arith, if◌then◌else◌, ◌==◌, All, length,
  Option-cases,
}
use opsiconfd.Prelude.Text.{truthy, contains}
use opsiconfd.Actions.Data.{ProductDependency, Product, ProductOnClient, Action}
use opsiconfd.Actions.Error.{
  Error, product_not_available, product_not_available_on_depot, invalid_installation_status,
  attribute_error, out_of_fuel, Result, returns, raises, is_unavailable, ◌>>=◌,
}
use opsiconfd.Actions.Walk.{
  Lookups, Sorter, State, required_action, find_product, follow_required, require,
  follow_dependency, with_required, with_product, process_dependency, process_all,
  process_dependencies,
}
use opsiconfd.Actions.Walk.Rule.{or-false}

-- A result that is no exhausted fuel, and whose path misses no more products than before.
abbrev Ends : List String → List String → Result State → Type 0
Ends u path (returns st) = missing u st.0 ≤ missing u path
Ends u path (raises out_of_fuel) = ⊥
Ends u path (raises _) = Unit

Ends-weaken :
    (u path path' : List String) (r : Result State)
    → missing u path' ≤ missing u path
    → Ends u path' r
    → Ends u path r
Ends-weaken u path path' (returns st) h e = le_trans e h
Ends-weaken u path path' (raises out_of_fuel) h e = e
Ends-weaken u path path' (raises _) h e = tt

Ends-if :
    (u path : List String) (b : Bool) (m n : Result State)
    → (b ≡ true → Ends u path m)
    → (b ≡ false → Ends u path n)
    → Ends u path (if b then m else n)
Ends-if u path true m n hm hn = hm refl
Ends-if u path false m n hm hn = hn refl

-- A lookup of a product raises an exception of its own, or returns a product of that id.
abbrev pub FindsOwn : String → Result Product → Type 0
FindsOwn id (returns product) = product.id ≡ id
FindsOwn id (raises out_of_fuel) = ⊥
FindsOwn id (raises _) = Unit

-- `products` holds every product that a dependency requires.
pub record IsClosed (l : Lookups) (products : List String) : Type 0 where
  pub finds : (id : String) (v p : Option String) → FindsOwn id (find_product l id v p)
  pub covers :
      (id v p : String)
      → All (λ d. contains d.required_product_id products ≡ true) (l.dependencies id v p)

Ends-bind :
    (u path : List String) (m : Result State) (f : State → Result State)
    → Ends u path m
    → ((st : State) → missing u st.0 ≤ missing u path → Ends u st.0 (f st))
    → Ends u path (m >>= f)
Ends-bind u path (returns st) f h k = Ends-weaken u path st.0 (f st) h (k st h)
Ends-bind u path (raises out_of_fuel) f h k = h
Ends-bind u path (raises _) f h k = tt

required_action-ne :
    (d : ProductDependency) (poc : ProductOnClient) → required_action d poc ≢ raises out_of_fuel
unfolding required_action
required_action-ne d poc = ground arith

module _ (l : Lookups) (ignore : Bool) (u : List String) (closed : IsClosed l u) where
  Ends-unavailable :
      (id : String) (e : Error) (path : List String) (s : Sorter)
      → FindsOwn id (raises e)
      → Ends u path (if is_unavailable e && ignore then returns (path, s) else raises e)
  Ends-unavailable id product_not_available path s h =
      Ends-if u path ignore (returns (path, s)) _ (λ _. le_refl _) (λ _. tt)
  Ends-unavailable id product_not_available_on_depot path s h =
      Ends-if u path ignore (returns (path, s)) _ (λ _. le_refl _) (λ _. tt)
  Ends-unavailable id invalid_installation_status path s h = tt
  Ends-unavailable id attribute_error path s h = tt
  Ends-unavailable id out_of_fuel path s h = h

  module _ (fuel : ℕ) (follow : Action → State → Result State)
      (ih : (a : Action) (path : List String) (s : Sorter)
        → missing u (path ++ a.product_id ∷ []) < fuel
        → Ends u path (follow a (path, s))) where
    Ends-require :
        (dep_product : Product) (required : String) (path : List String) (s : Sorter)
        → missing u (path ++ dep_product.id ∷ []) < fuel
        → Ends u path (require l ignore follow dep_product required (path, s))
    unfolding require
    Ends-require dep_product required path s h = elim (Option-cases (dep_product.script required)) [
      | inl e ↦ rw (e, require) tt
      | inr (script, e) ↦
          rw (e, require)
            (Ends-if u path (truthy script) _ (returns (path, s)) (λ _. ih _ path _ h)
              (λ _. le_refl _))
    ]

    Ends-follow_required :
        (dep_product : Product) (r : Result (Option String)) (path : List String) (s : Sorter)
        → r ≢ raises out_of_fuel
        → missing u (path ++ dep_product.id ∷ []) < fuel
        → Ends u path (follow_required l ignore follow dep_product r (path, s))
    unfolding follow_required
    Ends-follow_required dep_product (raises out_of_fuel) path s other h = other refl
    Ends-follow_required dep_product (raises _) path s other h = tt
    Ends-follow_required dep_product (returns none) path s other h = le_refl _
    Ends-follow_required dep_product (returns (some required)) path s other h =
        Ends-require dep_product required path s h

    Ends-with_required :
        (a : Action) (product : Product) (d : ProductDependency) (r : Result Product)
        (path : List String) (s : Sorter)
        → FindsOwn d.required_product_id r
        → contains d.required_product_id u ≡ true
        → contains d.required_product_id path ≡ false
        → missing u path ≤ fuel
        → Ends u path (with_required l ignore follow a product d r (path, s))
    unfolding with_required follow_dependency
    Ends-with_required a product d (raises e) path s own there new h =
        Ends-unavailable d.required_product_id e path s own
    Ends-with_required a product d (returns dep_product) path s own there new h =
        Ends-follow_required dep_product _ path _ (required_action-ne d _)
          (rw own (omega (arith, missing-snoc u path d.required_product_id there new)))

    Ends-process_dependency :
        (a : Action) (product : Product) (d : ProductDependency) (path : List String) (s : Sorter)
        → contains d.required_product_id u ≡ true
        → missing u path ≤ fuel
        → Ends u path (process_dependency l ignore follow a product d (path, s))
    unfolding process_dependency
    Ends-process_dependency a product d path s there h =
        let other = not (d.product_action == a.action) in
        let seen = contains d.required_product_id path in
        let r = d.required_product_id in
        Ends-if u path (other || seen) (returns (path, s)) _ (λ _. le_refl _)
          (λ go.
            Ends-with_required a product d _ path s (closed.finds r _ _) there
              (or-false other seen go) h)

    Ends-process_all :
        (a : Action) (product : Product) (ds : List ProductDependency) (path : List String)
        (s : Sorter)
        → All (λ d. contains d.required_product_id u ≡ true) ds
        → missing u path ≤ fuel
        → Ends u path (process_all l ignore follow a product ds (path, s))
    unfolding process_all
    Ends-process_all a product [] path s there h = le_refl _
    Ends-process_all a product (d ∷ ds) path s there h =
        Ends-bind u path (process_dependency l ignore follow a product d (path, s)) _
          (Ends-process_dependency a product d path s there.0 h)
          (λ st less. Ends-process_all a product ds st.0 st.1 there.1 (le_trans less h))

    Ends-with_product :
        (a : Action) (r : Result Product) (path : List String) (s : Sorter)
        → FindsOwn a.product_id r
        → missing u path ≤ fuel
        → Ends u path (with_product l ignore follow a r (path, s))
    unfolding with_product
    Ends-with_product a (raises e) path s own h = Ends-unavailable a.product_id e path s own
    Ends-with_product a (returns product) path s own h =
        Ends-process_all a product _ path s (closed.covers _ _ _) h

  Ends-process_dependencies :
      (fuel : ℕ) (a : Action) (path : List String) (s : Sorter)
      → missing u (path ++ a.product_id ∷ []) < fuel
      → Ends u path (process_dependencies l ignore fuel a (path, s))
  unfolding process_dependencies
  Ends-process_dependencies zero a path s h = absurd (omega arith)
  Ends-process_dependencies (suc fuel) a path s h =
      Ends-weaken u path _ _ (missing-append u path (a.product_id ∷ [])) (
        Ends-with_product fuel (process_dependencies l ignore fuel) (Ends-process_dependencies fuel)
          a _ (path ++ a.product_id ∷ []) s (closed.finds a.product_id none none) (omega arith))

  -- With more fuel than there are products that a dependency requires, `process_dependencies`
  -- returns or raises an exception of the program; it never runs out of fuel.
  pub process_dependencies_ends :
      (fuel : ℕ) (a : Action) (s : Sorter)
      → length u < fuel
      → process_dependencies l ignore fuel a ([], s) ≢ raises out_of_fuel
  process_dependencies_ends fuel a s h e =
      subst (Ends u []) e
        (Ends-process_dependencies fuel a [] s (omega (arith, missing-le u (a.product_id ∷ []))))
