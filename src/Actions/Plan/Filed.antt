-- ===== src/Actions/Plan/Filed.antt =====
-- How `unsorted_actions` is kept: one entry for each product, which holds its actions only.
use opsiconfd.Prelude.{
  ℕ, String, ◌≡◌, refl, inl, inr, List, [], ◌∷◌, none, Bool, true, arith, if◌then◌else◌, ◌==◌,
  eq_iff, eq_refl, All, All-append, Bool-cases, any, count, subst,
}
use opsiconfd.Prelude.Dict.{HasUniqueKeys, Dict, lookup, insert, lookup-insert}
use opsiconfd.Actions.Data.{ProductOnClient, Action}
use opsiconfd.Actions.Group.Positions.{is_named}
use opsiconfd.Actions.Walk.{Lookups, Sorter, get_list, add_unsorted, register}
use opsiconfd.Actions.Walk.Rule.{OnOk, Keeps, process_dependencies_keeps}
use opsiconfd.Actions.Plan.{is_idle, last_active, merge_actions, merge_all, collect_actions}
use opsiconfd.Actions.Plan.Collect.{collect_actions_keeps}
use opsiconfd.Actions.Plan.Firsts.{first_actions}

-- The actions are all for product `k`.
abbrev pub AllNamed : String → List Action → Type 0
AllNamed k = All (λ a. is_named k a ≡ true)

abbrev pub Filed : Dict (List Action) → Type 0
Filed [] = Unit
Filed ((k, v) ∷ d) = (lookup k d ≡ none) × AllNamed k v × Filed d

pub Filed-HasUniqueKeys : (d : Dict (List Action)) → Filed d → HasUniqueKeys d
Filed-HasUniqueKeys [] h = tt
Filed-HasUniqueKeys ((k, v) ∷ d) (new, named, h) = (new, Filed-HasUniqueKeys d h)

AllNamed-get_list : (k : String) (d : Dict (List Action)) → Filed d → AllNamed k (get_list k d)
unfolding lookup
AllNamed-get_list k [] h = tt
AllNamed-get_list k ((j, v) ∷ d) (new, named, h) = elim (Bool-cases (j == k)) [
  | inl same ↦ rw (same, get_list) (subst (λ i. AllNamed i v) ((eq_iff j k).0 same) named)
  | inr other ↦ rw (other, get_list) (AllNamed-get_list k d h)
]

Filed-insert :
    (k : String) (v : List Action) (d : Dict (List Action))
    → AllNamed k v
    → Filed d
    → Filed (insert k v d)
unfolding insert lookup
Filed-insert k v [] n h = (refl, n, tt)
Filed-insert k v ((j, w) ∷ d) n (new, named, h) = elim (Bool-cases (j == k)) [
  | inl same ↦ rw same (subst (λ i. lookup i d ≡ none) ((eq_iff j k).0 same) new, n, h)
  | inr other ↦
      rw other (
        ground (arith, lookup-insert k j v d, eq_iff j k, eq_iff k j),
        named,
        Filed-insert k v d n h,
      )
]

Filed-add_unsorted :
    (a : Action) (s : Sorter) → Filed s.unsorted_actions → Filed (add_unsorted a s).unsorted_actions
unfolding add_unsorted
Filed-add_unsorted a s h =
    Filed-insert a.product_id _ s.unsorted_actions
      (All-append _ (get_list a.product_id s.unsorted_actions) (a ∷ [])
        (AllNamed-get_list a.product_id s.unsorted_actions h) (eq_refl a.product_id, tt))
      h

module _ (l : Lookups) (ignore : Bool) where
  Filed-keeps : Keeps l ignore (λ st. Filed st.1.unsorted_actions)
  unfolding register
  Filed-keeps = record {
    enter = λ k path s h. h;
    adds = λ d dep_product a path s found new own h. Filed-add_unsorted a s h;
    registers = λ a product d dep_product path s found dep_found new h.
        elim (Bool-cases (any (λ k. l.same_dependency k d) (get_list product.id s.dependencies))) [
          | inl known ↦ rw (known, register) h
          | inr new ↦ rw (new, register) h
        ];
  }

  pub collect_actions-Filed :
      (fuel : ℕ) (pocs : List ProductOnClient)
      → OnOk (λ s. Filed s.unsorted_actions) (collect_actions l ignore fuel pocs)
  collect_actions-Filed fuel pocs =
      collect_actions_keeps l ignore (λ s. Filed s.unsorted_actions) Filed-add_unsorted
        (λ f a s h. process_dependencies_keeps l ignore Filed-keeps f a ([], s) h) tt fuel pocs

AllNamed-last_active :
    (k : String) (a : Action) (l : List Action)
    → is_named k a ≡ true
    → AllNamed k l
    → is_named k (last_active a l) ≡ true
unfolding last_active
AllNamed-last_active k a [] h n = h
AllNamed-last_active k a (b ∷ l) h (at, n) =
    AllNamed-last_active k (if is_idle b then a else b) l (ground arith) n

AllNamed-merge_actions :
    (k : String) (l : List Action) → AllNamed k l → AllNamed k (merge_actions l)
unfolding merge_actions
AllNamed-merge_actions k [] h = h
AllNamed-merge_actions k (a ∷ []) h = h
AllNamed-merge_actions k (a ∷ b ∷ l) (at, h) = (AllNamed-last_active k a (a ∷ b ∷ l) at (at, h), tt)

abbrev pub one_if_any : List Action → ℕ
one_if_any [] = 0
one_if_any (a ∷ as') = 1

-- The first action of the merged actions of each product: one for a product with actions.
pub first_actions-count :
    (k : String) (d : Dict (List Action))
    → Filed d
    → count (is_named k) (first_actions (merge_all d)) ≡ one_if_any (get_list k d)
unfolding merge_all lookup merge_actions
first_actions-count k [] h = refl
first_actions-count k ((j, []) ∷ d) (new, n, h) =
    ground (arith, first_actions-count k d h, eq_iff j k)
first_actions-count k ((j, a ∷ []) ∷ d) (new, n, h) =
    ground (arith, first_actions-count k d h, eq_iff j k, eq_iff a.product_id j)
first_actions-count k ((j, a ∷ b ∷ l) ∷ d) (new, n, h) =
    let named = AllNamed-last_active j a (a ∷ b ∷ l) n.0 n in
    let last = last_active a (a ∷ b ∷ l) in
    ground (arith, first_actions-count k d h, eq_iff j k, eq_iff last.product_id j)
