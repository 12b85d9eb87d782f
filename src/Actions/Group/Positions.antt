-- ===== src/Actions/Group/Positions.antt =====
-- Where the actions of a group stand, and what one move of `ActionGroup.sort` does to that.
use opsiconfd.Prelude.{
  ℕ, suc, ◌+◌, ◌≤◌, String, ◌≡◌, refl, inl, inr, List, [], ◌∷◌, Option, none, some, Bool, true,
  false, arith, if◌then◌else◌, ◌==◌, eq_iff, get_elem?, erase_idx, any, Option-cases,
  erase_idx-perm, insert_idx-perm, count, count-perm, any-count,
}
use mathlib.Core.List.{Perm}
use mathlib.Core.List.Perm
use opsiconfd.Actions.Data.{Action}
use opsiconfd.Actions.Group.{find_positions, index, move}

abbrev pub is_named : String → Action → Bool
is_named k a = a.product_id == k

abbrev pub has : String → List Action → Bool
has k = any (is_named k)

-- No two actions of the list are for one product.
abbrev pub IsUnique : List Action → Type 0
IsUnique l = (k : String) → count (is_named k) l ≤ 1

-- An action for `x` stands before every action for `y`, and there are both.
unfoldable pub precedes : String → String → List Action → Bool
precedes x y [] = false
precedes x y (a ∷ l) =
    if a.product_id == x then has y l else if a.product_id == y then false else precedes x y l

bump : Option ℕ → Option ℕ
bump none = none
bump (some i) = some (suc i)

unfoldable pub index_of : String → List Action → Option ℕ
unfolding bump
index_of k [] = none
index_of k (a ∷ l) = if a.product_id == k then some 0 else bump (index_of k l)

shift : ℕ → Option ℕ → Option ℕ
shift k none = none
shift k (some i) = some (k + i)

pub move-perm : (from : Option ℕ) (to : ℕ) (l : List Action) → Perm (move from to l) l
unfolding move
move-perm from to l = elim (Option-cases (get_elem? l (index from l))) [
  | inl e ↦ rw (e, move) Perm.rfl
  | inr (a, e) ↦
      rw (e, move)
        (Perm.trans (insert_idx-perm (erase_idx l (index from l)) to a)
          (erase_idx-perm l (index from l) a e))
]

pub IsUnique-perm : {l m : List Action} → Perm m l → IsUnique l → IsUnique m
IsUnique-perm r h k = rw (count-perm (is_named k) r) (h k)

pub has-perm : {l m : List Action} (k : String) → Perm m l → has k m ≡ has k l
has-perm {l} {m} k r =
    rw (any-count (is_named k) m, any-count (is_named k) l, count-perm (is_named k) r)

pub IsUnique-tail : (a : Action) (l : List Action) → IsUnique (a ∷ l) → IsUnique l
IsUnique-tail a l h k = omega (arith, h k)

pub not-has-tail :
    (k : String) (a : Action) (l : List Action)
    → IsUnique (a ∷ l)
    → is_named k a ≡ true
    → has k l ≡ false
not-has-tail k a l h e = ground (arith, h k, any-count (is_named k) l)

module _ (x y : String) (apart : (x == y) ≡ false) where
  find_second :
      (k i : ℕ) (l : List Action)
      → has x l ≡ false
      → find_positions x y k l (some i, none) ≡ (some i, shift k (index_of y l))
  unfolding find_positions index_of shift
  find_second k i [] h = refl
  find_second k i (a ∷ l) h = ground (arith, find_second (suc k) i l)

  find_first :
      (k j : ℕ) (l : List Action)
      → has y l ≡ false
      → find_positions x y k l (none, some j) ≡ (shift k (index_of x l), some j)
  unfolding find_positions index_of shift
  find_first k j [] h = refl
  find_first k j (a ∷ l) h = ground (arith, find_first (suc k) j l)

  find_from :
      (k : ℕ) (l : List Action)
      → IsUnique l
      → find_positions x y k l (none, none) ≡ (shift k (index_of x l), shift k (index_of y l))
  unfolding find_positions index_of shift
  find_from k [] h = refl
  find_from k (a ∷ l) h = ground (
    arith,
    eq_iff a.product_id x,
    eq_iff a.product_id y,
    eq_iff x y,
    not-has-tail x a l h,
    not-has-tail y a l h,
    find_second k k l,
    find_second (suc k) k l,
    find_first (suc k) k l,
    find_from (suc k) l (IsUnique-tail a l h),
  )

  -- What the loop over the actions finds are the two positions.
  pub find_positions_lem :
      (l : List Action)
      → IsUnique l
      → find_positions x y 0 l (none, none) ≡ (index_of x l, index_of y l)
  find_positions_lem l h = rw (find_from 0 l h) (unfold shift in ground arith)
