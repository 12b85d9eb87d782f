-- ===== src/Actions/Walk/Own.antt =====
-- Following the dependencies of an action leaves the list of that action's product alone, so the
-- loop over that list may as well read it before it starts.
use opsiconfd.Prelude.{
  ℕ, zero, suc, String, ◌≡◌, refl, inl, inr, List, [], ◌∷◌, ◌++◌, Option, Bool, true, false, arith,
  ◌==◌, eq_iff, eq_refl, Bool-cases, any, subst, ◌∙◌,
}
use opsiconfd.Prelude.Text.{contains, contains-append, contains-cons}
use opsiconfd.Prelude.Dict.{lookup-insert}
use opsiconfd.Actions.Data.{Product, Action}
use opsiconfd.Actions.Error.{returns}
use opsiconfd.Actions.Walk.{
  Lookups, Sorter, State, get_list, add_unsorted, register, find_product, process_dependencies,
}
use opsiconfd.Actions.Walk.Rule.{
  OnOk, OnOk-imp, Keeps, with_product_keeps, process_dependencies_keeps,
}
use opsiconfd.Actions.Walk.Fuel.{FindsOwn, IsClosed}

-- Product `k` is on the path, and its list is `l`.
abbrev Untouched : String → List Action → State → Type 0
Untouched k l st = (contains k st.0 ≡ true) × (get_list k st.1.unsorted_actions ≡ l)

get_list-add_unsorted :
    (k : String) (a : Action) (s : Sorter)
    → (a.product_id == k) ≡ false
    → get_list k (add_unsorted a s).unsorted_actions ≡ get_list k s.unsorted_actions
unfolding add_unsorted
get_list-add_unsorted k a s h = ground (
  arith,
  lookup-insert a.product_id k (get_list a.product_id s.unsorted_actions ++ a ∷ [])
      s.unsorted_actions,
)

apart_on_path :
    (k r : String) (path : List String)
    → contains k path ≡ true
    → contains r path ≡ false
    → (r == k) ≡ false
apart_on_path k r path h new = elim (Bool-cases (r == k)) [
  | inl same ↦ cc (subst (λ i. contains i path ≡ false) ((eq_iff r k).0 same) new, h)
  | inr other ↦ other
]

module _ (l : Lookups) (ignore : Bool) (products : List String) (closed : IsClosed l products) where
  found_own :
      (id : String) (v p : Option String) (product : Product)
      → find_product l id v p ≡ returns product
      → product.id ≡ id
  found_own id v p product e = subst (FindsOwn id) e (closed.finds id v p)

  Untouched-keeps : (k : String) (as' : List Action) → Keeps l ignore (Untouched k as')
  unfolding register
  Untouched-keeps k as' = record {
    enter = λ j path s (h, e). (ground (arith, contains-append k path (j ∷ [])), e);
    adds = λ d dep_product a path s found new own (h, e). (
      h,
      get_list-add_unsorted k a s (
            rw (own, found_own _ _ _ dep_product found)
              (apart_on_path k d.required_product_id path h new))
          ∙ e,
    );
    registers = λ a product d dep_product path s found dep_found new (h, e).
        elim (Bool-cases (any (λ k. l.same_dependency k d) (get_list product.id s.dependencies))) [
          | inl known ↦ rw (known, register) (h, e)
          | inr unknown ↦ rw (unknown, register) (h, e)
        ];
  }

  pub process_dependencies_own :
      (fuel : ℕ) (a : Action) (s : Sorter)
      → OnOk
          (λ st.
            get_list a.product_id st.1.unsorted_actions ≡ get_list a.product_id s.unsorted_actions)
          (process_dependencies l ignore fuel a ([], s))
  unfolding process_dependencies
  process_dependencies_own zero a s = tt
  process_dependencies_own (suc fuel) a s =
      let keeps = Untouched-keeps a.product_id (get_list a.product_id s.unsorted_actions) in
      OnOk-imp (Untouched a.product_id (get_list a.product_id s.unsorted_actions)) _ (λ st h. h.1) _
        (with_product_keeps l ignore keeps (process_dependencies l ignore fuel)
          (process_dependencies_keeps l ignore keeps fuel) a _ _ refl
          (ground (arith, contains-cons a.product_id a.product_id [], eq_refl a.product_id), refl))
