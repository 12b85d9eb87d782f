-- ===== src/Actions/Partition/Classes.antt =====
-- What `join` does to the relation "in one group".
use opsiconfd.Prelude.{
  ◌+◌, String, ◌≡◌, List, [], ◌∷◌, Bool, true, false, ◌||◌, ◌&&◌, arith, ◌==◌, eq_iff, any, All,
  count, any-count,
}
use opsiconfd.Prelude.Text.{contains}
use opsiconfd.Actions.Partition.{join}
use opsiconfd.Actions.Partition.Join.{IsDisjoint, both_in, together, Joined}
use opsiconfd.Actions.Partition.Cases.{Joined-join}

-- `k` is `a` or `b`, or in a group with one of them.
abbrev pub touches : String → String → List (List String) → String → Bool
touches a b groups k = (k == a) || (k == b) || together k a groups || together k b groups

any-both_in :
    (x y : String) (l : List (List String))
    → any (both_in x y) l ≡ true
    → (any (contains x) l ≡ true) × (any (contains y) l ≡ true)
any-both_in x y [] h = cc
any-both_in x y (g ∷ l) h = ground (arith, any-both_in x y l)

-- Each group of `spread` has an end of the dependency, so its members touch the dependency.
any-spread :
    (a b k : String) (l : List (List String))
    → All (λ h. (contains a h || contains b h) ≡ true) l
    → any (contains k) l ≡ true
    → (together k a l || together k b l) ≡ true
any-spread a b k [] ends h = cc
any-spread a b k (g ∷ l) ends h = ground (arith, any-spread a b k l ends.1)

none-both_in :
    (k a : String) (l : List (List String)) → count (contains a) l ≡ 0 → together k a l ≡ false
none-both_in k a l h = ground (arith, any-both_in k a l, any-count (contains a) l)

count-cast :
    (k a : String) (l : List (List String))
    → count (contains a) l ≡ 0
    → (k == a) ≡ true
    → count (contains k) l ≡ 0
count-cast k a l h e = rw ((eq_iff k a).0 e) h

any-split :
    {A : Type 0} (p : A → Bool) (m n l : List A)
    → count p m ≡ count p n + count p l
    → any p m ≡ (any p n || any p l)
any-split p m n l h = ground (arith, any-count p m, any-count p n, any-count p l)

module _ (a b : String) (groups result : List (List String)) (j : Joined a b groups result) where
  open j use {class, rest, spread}

  Joined-touches :
      (k : String) → touches a b groups k ≡ ((k == a) || (k == b) || any (contains k) spread)
  Joined-touches k = ground (
    arith,
    any-split (both_in k a) groups spread rest (j.groups_count (both_in k a)),
    any-split (both_in k b) groups spread rest (j.groups_count (both_in k b)),
    none-both_in k a rest j.rest_a,
    none-both_in k b rest j.rest_b,
    any-both_in k a spread,
    any-both_in k b spread,
    any-spread a b k spread j.ends,
  )

  any-result : (p : List String → Bool) → any p result ≡ (p class || any p rest)
  any-result p = ground (arith, any-count p result, any-count p rest, j.result_count p)

  Joined-together :
      (x y : String)
      → together x y result
        ≡ (together x y groups || (touches a b groups x && touches a b groups y))
  Joined-together x y = ground (
    arith,
    any-result (both_in x y),
    j.in_class x,
    j.in_class y,
    Joined-touches x,
    Joined-touches y,
    any-split (both_in x y) groups spread rest (j.groups_count (both_in x y)),
    any-both_in x y spread,
  )

  Joined-IsDisjoint : IsDisjoint groups → IsDisjoint result
  Joined-IsDisjoint d k = ground (
    arith,
    d k,
    j.result_count (contains k),
    j.in_class k,
    j.groups_count (contains k),
    any-count (contains k) spread,
    count-cast k a rest j.rest_a,
    count-cast k b rest j.rest_b,
  )

-- Registering a dependency of `a` on `b` puts two products into one group exactly when they were
-- in one before, or each of them is `a` or `b` or was in a group with one of these.
pub together-join :
    (a b : String) (groups : List (List String)) (x y : String)
    → IsDisjoint groups
    → together x y (join a b groups)
      ≡ (together x y groups || (touches a b groups x && touches a b groups y))
together-join a b groups x y d =
    Joined-together a b groups (join a b groups) (Joined-join a b groups d) x y

-- No product ever gets into two groups.
pub join-IsDisjoint :
    (a b : String) (groups : List (List String)) → IsDisjoint groups → IsDisjoint (join a b groups)
join-IsDisjoint a b groups d =
    Joined-IsDisjoint a b groups (join a b groups) (Joined-join a b groups d) d
