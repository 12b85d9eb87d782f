-- ===== src/Actions/Partition.antt =====
-- `product_id_groups` of `ActionSorter` in opsiconfd/backend/rpc/obj_product_dependency.py: the
-- sets of products that hard requirements link. A set is a list without order.
pub mod Join
pub mod Cases
pub mod Classes
use opsiconfd.Prelude.{
  ℕ, zero, suc, String, List, [], ◌∷◌, ◌++◌, Option, none, some, Bool, ◌&&◌, if◌then◌else◌, ltb,
  eqb, any, get_elem?, erase_idx,
}
use opsiconfd.Prelude.Text.{contains}

-- `group.add(k)`
unfoldable pub add : String → List String → List String
add k group = if contains k group then group else group ++ k ∷ []

-- `group.update(other)`
unfoldable pub update : List String → List String → List String
unfolding add
update group [] = group
update group (k ∷ ks) = update (add k group) ks

-- The loop with `break` that looks for a product in the groups.
abbrev next : Option ℕ → Option ℕ
next none = none
next (some i) = some (suc i)

unfoldable pub find_group : String → List (List String) → Option ℕ
find_group k [] = none
find_group k (group ∷ groups) =
    let rest = next (find_group k groups) in if contains k group then some 0 else rest

-- Changes the group at an index, `groups[i].add(...)`.
unfoldable pub modify : ℕ → (List String → List String) → List (List String) → List (List String)
modify i f [] = []
modify zero f (group ∷ groups) = f group ∷ groups
modify (suc i) f (group ∷ groups) = group ∷ modify i f groups

-- `self.product_id_groups[lo].update(self.product_id_groups[hi])`, `del ...[hi]`
unfoldable pub merge : ℕ → ℕ → List (List String) → List (List String)
merge lo hi groups = elim (get_elem? groups hi) [
  | none ↦ groups
  | some other ↦ erase_idx (modify lo (λ group. update group other) groups) hi
]

-- Adds both products to the group at an index.
unfoldable pub add_both : String → String → ℕ → List (List String) → List (List String)
add_both a b i = modify i (λ group. add b (add a group))

-- What a new dependency of product `a` on product `b` does to the groups.
unfoldable pub join : String → String → List (List String) → List (List String)
join a b groups = elim (find_group a groups) [
  | none ↦ elim (find_group b groups) [
    | none ↦ groups ++ (add b (a ∷ [])) ∷ []
    | some j ↦ add_both a b j groups
  ]
  | some i ↦ elim (find_group b groups) [
    | none ↦ add_both a b i groups
    | some j ↦
        if ltb i j
        then add_both a b i (merge i j groups)
        else if ltb j i
        then add_both a b j (merge j i groups)
        else add_both a b i groups
  ]
]
