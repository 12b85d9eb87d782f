-- ===== src/Actions/Partition/Join.antt =====
-- The groups are the classes that the dependencies generate.
use opsiconfd.Prelude.{
  ap, All, ℕ, zero, suc, ◌+◌, ◌≤◌, ◌<◌, String, ◌≡◌, refl, ◌⊎◌, inl, inr, List, [], ◌∷◌, ◌++◌, none,
  some, Bool, true, false, ◌||◌, ◌&&◌, arith, ◌==◌, eq_iff, any, count, get_elem?, erase_idx,
}
use opsiconfd.Prelude.Text.{contains, contains-append, contains-cons, contains-nil}
use opsiconfd.Actions.Partition.{add, update, find_group, modify}

-- No product is in two groups.
abbrev pub IsDisjoint : List (List String) → Type 0
IsDisjoint groups = (k : String) → count (contains k) groups ≤ 1

-- Two products are in one group.
abbrev pub both_in : String → String → List String → Bool
both_in x y group = contains x group && contains y group

abbrev pub together : String → String → List (List String) → Bool
together x y = any (both_in x y)

pub contains-add :
    (k a : String) (l : List String) → contains k (add a l) ≡ ((k == a) || contains k l)
unfolding add
contains-add k a l =
    ground (arith, contains-append k l (a ∷ []), contains-cons k a [], contains-nil k, eq_iff k a)

pub contains-update :
    (k : String) (l m : List String) → contains k (update l m) ≡ (contains k l || contains k m)
unfolding update
contains-update k l [] = ground (arith, contains-nil k)
contains-update k l (a ∷ m) =
    ground (arith, contains-update k (add a l) m, contains-add k a l, contains-cons k a m)

abbrev pub one_if : Bool → ℕ
one_if true = 1
one_if false = 0

module _ {A : Type 0} (p : A → Bool) where
  pub count-erase_idx :
      (l : List A) (i : ℕ) (a : A)
      → get_elem? l i ≡ some a
      → count p l ≡ one_if (p a) + count p (erase_idx l i)
  count-erase_idx [] i a h = cc
  count-erase_idx (x ∷ l) zero a h = ground arith
  count-erase_idx (x ∷ l) (suc i) a h = ground (arith, count-erase_idx l i a h)

  pub count-append : (l m : List A) → count p (l ++ m) ≡ count p l + count p m
  count-append [] m = omega arith
  count-append (x ∷ l) m = omega (arith, count-append l m)

pub some_eq : {x a : List String} → some x ≡ some a → x ≡ a
some_eq h = cc

module _ (p : List String → Bool) (f : List String → List String) where
  pub count-modify :
      (l : List (List String)) (i : ℕ) (a : List String)
      → get_elem? l i ≡ some a
      → count p (modify i f l) ≡ one_if (p (f a)) + count p (erase_idx l i)
  unfolding modify
  count-modify [] i a h = cc
  count-modify (x ∷ l) zero a h = ground (arith, ap (λ g. p (f g)) (some_eq h))
  count-modify (x ∷ l) (suc i) a h = ground (arith, count-modify l i a h)

pub get_elem?-erase :
    (l : List (List String)) (i j : ℕ) → i < j → get_elem? (erase_idx l j) i ≡ get_elem? l i
get_elem?-erase [] i j h = refl
get_elem?-erase (x ∷ l) i zero h = absurd (omega arith)
get_elem?-erase (x ∷ l) zero (suc j) h = refl
get_elem?-erase (x ∷ l) (suc i) (suc j) h = get_elem?-erase l i j (omega arith)

pub erase-modify :
    (f : List String → List String) (l : List (List String)) (i j : ℕ)
    → i < j
    → erase_idx (modify i f l) j ≡ modify i f (erase_idx l j)
unfolding modify
erase-modify f [] i j h = refl
erase-modify f (x ∷ l) i zero h = absurd (omega arith)
erase-modify f (x ∷ l) zero (suc j) h = refl
erase-modify f (x ∷ l) (suc i) (suc j) h = ap (◌∷◌ x) (erase-modify f l i j (omega arith))

pub modify-modify :
    (f g : List String → List String) (l : List (List String)) (i : ℕ)
    → modify i f (modify i g l) ≡ modify i (λ x. f (g x)) l
unfolding modify
modify-modify f g [] i = refl
modify-modify f g (x ∷ l) zero = refl
modify-modify f g (x ∷ l) (suc i) = ap (◌∷◌ x) (modify-modify f g l i)

pub find_group-some :
    (k : String) (l : List (List String)) (i : ℕ)
    → find_group k l ≡ some i
    → (g : List String) × (get_elem? l i ≡ some g) × (contains k g ≡ true)
unfolding find_group
find_group-some k [] i h = cc
find_group-some k (x ∷ l) zero h = (x, refl, ground arith)
find_group-some k (x ∷ l) (suc i) h = find_group-some k l i (ground arith)

pub find_group-none :
    (k : String) (l : List (List String)) → find_group k l ≡ none → count (contains k) l ≡ 0
unfolding find_group
find_group-none k [] h = refl
find_group-none k (x ∷ l) h = ground (arith, find_group-none k l)

-- How `join` changed the groups: those in `spread` became the one group `class`, and the groups
-- in `rest` stayed.
pub record Joined (a b : String) (groups result : List (List String)) : Type 0 where
  pub class : List String
  pub rest : List (List String)
  pub spread : List (List String)
  pub in_class : (k : String) → contains k class ≡ ((k == a) || (k == b) || any (contains k) spread)
  pub result_count : (p : List String → Bool) → count p result ≡ one_if (p class) + count p rest
  pub groups_count : (p : List String → Bool) → count p groups ≡ count p spread + count p rest
  pub ends : All (λ h. (contains a h || contains b h) ≡ true) spread
  pub rest_a : count (contains a) rest ≡ 0
  pub rest_b : count (contains b) rest ≡ 0

pub contains-add_both :
    (k a b : String) (g : List String)
    → contains k (add b (add a g)) ≡ ((k == a) || (k == b) || contains k g)
contains-add_both k a b g = ground (arith, contains-add k b (add a g), contains-add k a g)

-- The groups with `k`, apart from one that has it.
abbrev pub HasOrNone : String → List String → List (List String) → Type 0
HasOrNone k g groups = (contains k g ≡ true) ⊎ (count (contains k) groups ≡ 0)

pub count-rest :
    (k : String) (g : List String) (n : ℕ) (m : ℕ)
    → m ≡ one_if (contains k g) + n
    → m ≤ 1
    → (contains k g ≡ true) ⊎ (m ≡ 0)
    → n ≡ 0
count-rest k g n m e h (inl t) = ground arith
count-rest k g n m e h (inr t) = ground arith
