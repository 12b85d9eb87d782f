-- ===== src/Actions/Group/Moves.antt =====
-- One move of `ActionGroup.sort` establishes the order that its dependency asks for.
use opsiconfd.Prelude.{
  ℕ, zero, suc, ◌<◌, String, ◌≡◌, refl, inl, inr, List, [], ◌∷◌, none, some, Bool, true, false,
  ◌||◌, arith, if◌then◌else◌, ◌==◌, eq_iff, insert_idx, any, Option-cases,
}
use opsiconfd.Prelude.Text.{eq_option}
use opsiconfd.Actions.Data.{ProductDependency, Action, ActionGroup}
use opsiconfd.Actions.Group.{move, find_positions, order_before, order_after, order_dependency}
use opsiconfd.Actions.Group.Positions.{
  is_named, has, precedes, IsUnique, IsUnique-tail, not-has-tail, index_of, find_positions_lem,
}

any-insert_idx :
    (p : Action → Bool) (l : List Action) (i : ℕ) (v : Action)
    → any p (insert_idx l i v) ≡ (p v || any p l)
any-insert_idx p l zero v = refl
any-insert_idx p [] (suc i) v = refl
any-insert_idx p (x ∷ l) (suc i) v = ground (arith, any-insert_idx p l i v)

index_of-has : (k : String) (l : List Action) (i : ℕ) → index_of k l ≡ some i → has k l ≡ true
unfolding index_of
index_of-has k [] i h = cc
index_of-has k (a ∷ l) zero h = ground (arith, index_of-has k l 0)
index_of-has k (a ∷ l) (suc i) h = ground (arith, index_of-has k l i)

index_of-none : (k : String) (l : List Action) → index_of k l ≡ none → has k l ≡ false
unfolding index_of
index_of-none k [] h = refl
index_of-none k (a ∷ l) h = ground (arith, index_of-none k l)

pub index_of-eq-none : (k : String) (l : List Action) → has k l ≡ false → index_of k l ≡ none
unfolding index_of
index_of-eq-none k [] h = refl
index_of-eq-none k (a ∷ l) h = ground (arith, index_of-eq-none k l)

pub index_of-some :
    (k : String) (l : List Action) → has k l ≡ true → (i : ℕ) × (index_of k l ≡ some i)
index_of-some k l h = elim (Option-cases (index_of k l)) [
  | inl e ↦ cc (index_of-none k l e)
  | inr found ↦ found
]

module _ (x y : String) (apart : (x == y) ≡ false) where
  insert_behind :
      (l : List Action) (m j : ℕ) (v : Action)
      → index_of y l ≡ some m
      → has x l ≡ false
      → is_named x v ≡ true
      → m < j
      → precedes y x (insert_idx l j v) ≡ true
  unfolding index_of precedes
  insert_behind [] m j v e out named lt = cc
  insert_behind (a ∷ l) m zero v e out named lt = absurd (omega arith)
  insert_behind (a ∷ l) zero (suc j) v e out named lt =
      ground (arith, any-insert_idx (is_named x) l j v)
  insert_behind (a ∷ l) (suc m) (suc j) v e out named lt = ground (arith, insert_behind l m j v)

  -- Moving the earlier of two actions to the place of the later puts it behind that one.
  move_behind :
      (l : List Action) (i j : ℕ)
      → index_of x l ≡ some i
      → index_of y l ≡ some j
      → i < j
      → IsUnique l
      → precedes y x (move (some i) j l) ≡ true
  unfolding index_of precedes move
  move_behind [] i j e f lt u = cc
  move_behind (a ∷ l) zero zero e f lt u = absurd (omega arith)
  move_behind (a ∷ l) zero (suc j) e f lt u =
      ground (arith, insert_behind l j (suc j) a, not-has-tail x a l u)
  move_behind (a ∷ l) (suc i) zero e f lt u = absurd (omega arith)
  move_behind (a ∷ l) (suc i) (suc j) e f lt u =
      ground (arith, move_behind l i j, IsUnique-tail a l u)

  -- What stands in front of another comes first in the list.
  precedes_of_lt :
      (l : List Action) (i j : ℕ)
      → index_of x l ≡ some i
      → index_of y l ≡ some j
      → i < j
      → precedes x y l ≡ true
  unfolding index_of precedes
  precedes_of_lt [] i j e f lt = cc
  precedes_of_lt (a ∷ l) i zero e f lt = absurd (omega arith)
  precedes_of_lt (a ∷ l) zero (suc j) e f lt = ground (arith, index_of-has y l j)
  precedes_of_lt (a ∷ l) (suc i) (suc j) e f lt = ground (arith, precedes_of_lt l i j)

  lt_of_precedes :
      (l : List Action) (i j : ℕ)
      → index_of x l ≡ some i
      → index_of y l ≡ some j
      → precedes x y l ≡ true
      → i < j
  unfolding index_of precedes
  lt_of_precedes [] i j e f p = cc
  lt_of_precedes (a ∷ l) zero zero e f p =
      ground (arith, eq_iff a.product_id x, eq_iff a.product_id y, eq_iff x y)
  lt_of_precedes (a ∷ l) zero (suc j) e f p = omega arith
  lt_of_precedes (a ∷ l) (suc i) zero e f p = ground arith
  lt_of_precedes (a ∷ l) (suc i) (suc j) e f p = ground (arith, lt_of_precedes l i j)

  -- The positions of two products differ.
  index_of-ne : (l : List Action) (i : ℕ) → index_of x l ≡ some i → index_of y l ≡ some i → ⊥
  unfolding index_of
  index_of-ne [] i e f = cc
  index_of-ne (a ∷ l) zero e f =
      ground (arith, eq_iff a.product_id x, eq_iff a.product_id y, eq_iff x y)
  index_of-ne (a ∷ l) (suc i) e f = ground (arith, index_of-ne l i)

-- What a dependency of product `p` asks of the order of the actions.
abbrev pub meets : String → ProductDependency → List Action → Bool
meets p d l =
    if eq_option d.requirement_type (some "before")
    then precedes d.required_product_id p l
    else if eq_option d.requirement_type (some "after")
    then precedes p d.required_product_id l
    else true

pub ==-sym : (a b : String) → (a == b) ≡ false → (b == a) ≡ false
==-sym a b h = ground (arith, eq_iff a b, eq_iff b a)

module _ (run : ℕ) (p r : String) (g : ActionGroup) (unique : IsUnique g.actions)
    (apart : (p == r) ≡ false) (i j : ℕ) (e : index_of p g.actions ≡ some i)
    (f : index_of r g.actions ≡ some j) where
  order_before_meets : precedes r p (order_before run p r (some i, some j) g).actions ≡ true
  unfolding order_before
  order_before_meets = ground (
    arith,
    move_behind p r apart g.actions i j e f,
    precedes_of_lt r p (==-sym p r apart) g.actions j i f e,
    index_of-ne p r apart g.actions i e,
  )

  order_after_meets : precedes p r (order_after run p r (some i, some j) g).actions ≡ true
  unfolding order_after
  order_after_meets = ground (
    arith,
    move_behind r p (==-sym p r apart) g.actions j i f e,
    precedes_of_lt p r apart g.actions i j e f,
    index_of-ne p r apart g.actions i e,
  )

  order_before_idle : precedes r p g.actions ≡ true → order_before run p r (some i, some j) g ≡ g
  unfolding order_before
  order_before_idle h = ground (arith, lt_of_precedes r p (==-sym p r apart) g.actions j i f e h)

  order_after_idle : precedes p r g.actions ≡ true → order_after run p r (some i, some j) g ≡ g
  unfolding order_after
  order_after_idle h = ground (arith, lt_of_precedes p r apart g.actions i j e f h)

module _ (run : ℕ) (p : String) (d : ProductDependency) (g : ActionGroup)
    (unique : IsUnique g.actions) (here : has p g.actions ≡ true)
    (apart : (p == d.required_product_id) ≡ false)
    (there : has d.required_product_id g.actions ≡ true) where
  abbrev r : String
  r = d.required_product_id

  found :
      (i : ℕ) × (j : ℕ) × (index_of p g.actions ≡ some i)
      × (index_of r g.actions ≡ some j)
      × (find_positions p r 0 g.actions (none, none) ≡ (some i, some j))
  found =
      let (i, e) = index_of-some p g.actions here in
      let (j, f) = index_of-some r g.actions there in
      (i, j, e, f, rw (find_positions_lem p r apart g.actions unique, e, f))

  -- After the step for one dependency the two actions stand in the order that it asks for, if
  -- both products have one action in the group.
  pub order_dependency-meets : meets p d (order_dependency run p d g).actions ≡ true
  unfolding order_dependency
  order_dependency-meets =
      let (i, j, e, f, h) = found in
      rw h (
        ground (
          arith,
          order_before_meets run p r g unique apart i j e f,
          order_after_meets run p r g unique apart i j e f,
        ))

  -- A step whose dependency is met changes nothing.
  pub order_dependency_idle : meets p d g.actions ≡ true → order_dependency run p d g ≡ g
  unfolding order_dependency
  order_dependency_idle met =
      let (i, j, e, f, h) = found in
      rw h (
        ground (
          arith,
          order_before_idle run p r g unique apart i j e f,
          order_after_idle run p r g unique apart i j e f,
        ))
