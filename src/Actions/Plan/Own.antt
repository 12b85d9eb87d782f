-- ===== src/Actions/Plan/Own.antt =====
-- The loop over the actions of one product in `process_product_on_clients` iterates over a list
-- that `process_dependencies` may append to; here it is read once.
use opsiconfd.Prelude.{ℕ, Bool, String, ◌≡◌, refl, ◌∙◌, List, [], ◌∷◌, eq_iff, subst}
use opsiconfd.Actions.Data.{Action}
use opsiconfd.Actions.Walk.{Lookups, Sorter, get_list, process_dependencies}
use opsiconfd.Actions.Walk.Rule.{OnOk, OnOk-imp, OnOk-bind}
use opsiconfd.Actions.Walk.Fuel.{IsClosed}
use opsiconfd.Actions.Walk.Own.{process_dependencies_own}
use opsiconfd.Actions.Plan.{process_actions}
use opsiconfd.Actions.Plan.Filed.{AllNamed}

-- The list of product `k` is the same in both sorters.
abbrev SameList : String → Sorter → Sorter → Type 0
SameList k s s' = get_list k s'.unsorted_actions ≡ get_list k s.unsorted_actions

-- Following the dependencies of any actions of one product adds no action for that product: the
-- list that the program iterates over does not change while it does.
pub process_actions_own :
    (l : Lookups) (ignore : Bool) (products : List String)
    → IsClosed l products
    → (fuel : ℕ) (k : String) (actions : List Action) (s : Sorter) → AllNamed k actions
    → OnOk (SameList k s) (process_actions l ignore fuel actions s)
unfolding process_actions
process_actions_own l ignore products closed fuel k [] s named = refl
process_actions_own l ignore products closed fuel k (a ∷ as') s (own, named) =
    OnOk-bind (λ st. SameList k s st.1) (SameList k s)
      (process_dependencies l ignore fuel a ([], s)) _
      (subst (λ i. OnOk (λ st. SameList i s st.1) (process_dependencies l ignore fuel a ([], s)))
        ((eq_iff a.product_id k).0 own)
        (process_dependencies_own l ignore products closed fuel a s))
      (λ st same.
        OnOk-imp (SameList k st.1) (SameList k s) (λ s' same'. same' ∙ same)
          (process_actions l ignore fuel as' st.1)
          (process_actions_own l ignore products closed fuel k as' st.1 named))
