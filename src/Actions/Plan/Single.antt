-- ===== src/Actions/Plan/Single.antt =====
-- `process_product_on_clients` as a whole: what its groups hold.
use opsiconfd.Prelude.{ℕ, ◌≤◌, String, ◌≡◌, List, [], ◌∷◌, Bool, count, count-perm, subst, arith}
use mathlib.Core.List.{Perm}
use opsiconfd.Actions.Data.{ProductOnClient, Action, ActionGroup}
use opsiconfd.Actions.Error.{Result, returns, >>=-eq-returns}
use opsiconfd.Actions.Group.Positions.{is_named}
use opsiconfd.Actions.Walk.{Lookups, Sorter, get_list}
use opsiconfd.Actions.Walk.Rule.{OnOk}
use opsiconfd.Actions.Plan.{merge_all, collect_actions, group_actions, process_product_on_clients}
use opsiconfd.Actions.Plan.Firsts.{all_actions, first_actions}
use opsiconfd.Actions.Plan.Filed.{
  Filed, Filed-HasUniqueKeys, one_if_any, collect_actions-Filed, first_actions-count,
}
use opsiconfd.Actions.Plan.Complete.{group_actions-perm}

returns_eq : {A : Type 0} {a b : A} → ◌≡◌ {A = Result A} (returns a) (returns b) → a ≡ b
returns_eq h = cc

one_if_any-le : (l : List Action) → one_if_any l ≤ 1
one_if_any-le [] = omega arith
one_if_any-le (a ∷ l) = omega arith

module _ (l : Lookups) (ignore : Bool) (same_on_client : ProductOnClient → ProductOnClient → Bool)
    (fuel : ℕ) (pocs : List ProductOnClient) where
  collected :
      (groups : List ActionGroup)
      → process_product_on_clients l ignore same_on_client fuel pocs ≡ returns groups
      → (s : Sorter) × (collect_actions l ignore fuel pocs ≡ returns s)
        × (group_actions same_on_client s ≡ groups)
        × Filed s.unsorted_actions
  unfolding process_product_on_clients
  collected groups h =
      let (s, e, f) = >>=-eq-returns (collect_actions l ignore fuel pocs) _ h in
      (
        s,
        e,
        returns_eq f,
        subst (OnOk (λ s. Filed s.unsorted_actions)) e (collect_actions-Filed l ignore fuel pocs),
      )

  -- If the sorter of a client returns, it has collected actions, and its groups together hold the
  -- merged action of each product with collected actions and no other: none is lost or doubled on
  -- the way into the groups.
  pub process_product_on_clients-perm :
      (groups : List ActionGroup)
      → process_product_on_clients l ignore same_on_client fuel pocs ≡ returns groups
      → (s : Sorter) × (collect_actions l ignore fuel pocs ≡ returns s)
        × Perm (all_actions groups) (first_actions (merge_all s.unsorted_actions))
  process_product_on_clients-perm groups h =
      let (s, e, f, filed) = collected groups h in
      (
        s,
        e,
        subst (λ gs. Perm (all_actions gs) (first_actions (merge_all s.unsorted_actions))) f
            (group_actions-perm same_on_client s (Filed-HasUniqueKeys _ filed)),
      )

  -- No product has two actions in the groups that the sorter of a client returns.
  pub process_product_on_clients_once :
      (groups : List ActionGroup)
      → process_product_on_clients l ignore same_on_client fuel pocs ≡ returns groups
      → (k : String) → count (is_named k) (all_actions groups) ≤ 1
  process_product_on_clients_once groups h k =
      let (s, e, f, filed) = collected groups h in
      let d = s.unsorted_actions in
      let perm = group_actions-perm same_on_client s (Filed-HasUniqueKeys d filed) in
      subst (λ gs. count (is_named k) (all_actions gs) ≤ 1) f
        (rw (count-perm (is_named k) perm, first_actions-count k d filed)
          (one_if_any-le (get_list k d)))
