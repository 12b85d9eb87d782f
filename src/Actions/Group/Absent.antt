-- ===== src/Actions/Group/Absent.antt =====
-- The `after` branch of `ActionGroup.sort` where the required product has no action in the group:
-- its position is -1, and `pop(-1)` takes the last action.
use opsiconfd.Prelude.{
  ℕ, zero, suc, ◌-◌, ◌<◌, ◌≤◌, String, ◌≡◌, refl, inl, inr, List, [], ◌∷◌, none, some, true, false,
  arith, ◌==◌, length, get_elem?, erase_idx, insert_idx, Option-cases,
}
use opsiconfd.Prelude.Text.{eq_option}
use opsiconfd.Actions.Data.{ProductDependency, Action, ActionGroup}
use opsiconfd.Actions.Group.{move, order_after, order_dependency}
use opsiconfd.Actions.Group.Positions.{has, IsUnique, index_of, find_positions_lem}
use opsiconfd.Actions.Group.Moves.{index_of-some, index_of-eq-none}
use opsiconfd.Actions.Group.Quiet.{not_both}

get_elem?-insert_idx :
    (l : List Action) (i : ℕ) (v : Action) → i ≤ length l → get_elem? (insert_idx l i v) i ≡ some v
get_elem?-insert_idx l zero v h = refl
get_elem?-insert_idx [] (suc i) v h = absurd (omega arith)
get_elem?-insert_idx (x ∷ l) (suc i) v h = get_elem?-insert_idx l i v (omega arith)

length-erase_idx :
    (l : List Action) (i : ℕ) → i < length l → suc (length (erase_idx l i)) ≡ length l
length-erase_idx [] i h = absurd (omega arith)
length-erase_idx (x ∷ l) zero h = refl
length-erase_idx (x ∷ l) (suc i) h = omega (arith, length-erase_idx l i (omega arith))

get_elem?-none : (l : List Action) (i : ℕ) → get_elem? l i ≡ none → length l ≤ i
get_elem?-none [] i h = omega arith
get_elem?-none (x ∷ l) zero h = cc
get_elem?-none (x ∷ l) (suc i) h = omega (arith, get_elem?-none l i h)

index_of-lt : (k : String) (l : List Action) (i : ℕ) → index_of k l ≡ some i → i < length l
unfolding index_of
index_of-lt k [] i h = cc
index_of-lt k (a ∷ l) zero h = omega arith
index_of-lt k (a ∷ l) (suc i) h = ground (arith, index_of-lt k l i)

move-last :
    (l : List Action) (i : ℕ)
    → i < length l
    → get_elem? (move none i l) i ≡ get_elem? l (length l - 1)
unfolding move
move-last l i h = elim (Option-cases (get_elem? l (length l - 1))) [
  | inl e ↦ absurd (omega (arith, get_elem?-none l (length l - 1) e))
  | inr (a, e) ↦
      rw (e, move)
        (get_elem?-insert_idx (erase_idx l (length l - 1)) i a
          (omega (arith, length-erase_idx l (length l - 1) (omega arith))))
]

-- If a product of the group has an `after` dependency on a product that has no action in the
-- group, the step for it puts the last action of the group, whichever product that is for, at the
-- product's place.
pub order_dependency-last :
    (run : ℕ) (p : String) (d : ProductDependency) (g : ActionGroup)
    → IsUnique g.actions
    → has p g.actions ≡ true
    → (p == d.required_product_id) ≡ false
    → has d.required_product_id g.actions ≡ false
    → eq_option d.requirement_type (some "after") ≡ true
    → (i : ℕ) × (index_of p g.actions ≡ some i)
      × (get_elem? (order_dependency run p d g).actions i
          ≡ get_elem? g.actions (length g.actions - 1))
unfolding order_dependency order_after
order_dependency-last run p d g unique here apart absent is_after =
    let (i, e) = index_of-some p g.actions here in
    (
      i,
      e,
      rw (find_positions_lem p d.required_product_id apart g.actions unique) (
          rw (e, index_of-eq-none d.required_product_id g.actions absent)
            (ground (
              arith,
              move-last g.actions i (index_of-lt p g.actions i e),
              not_both d.requirement_type,
            ))),
    )
