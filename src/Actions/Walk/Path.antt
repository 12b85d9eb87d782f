-- ===== src/Actions/Walk/Path.antt =====
-- How many products the path of `process_dependencies` has not reached.
use opsiconfd.Prelude.{
  ap, ℕ, ◌≤◌, ◌<◌, String, ◌≡◌, inl, inr, List, [], ◌∷◌, ◌++◌, Bool, true, false, not, arith, ◌==◌,
  eq_iff, length, count, Bool-cases,
}
use opsiconfd.Prelude.Text.{contains, contains-append, contains-cons, contains-nil}

-- The products that are not on the path yet.
abbrev is_new : List String → String → Bool
is_new path u = not (contains u path)

pub missing : List String → List String → ℕ
missing products path = count (is_new path) products

count_mono :
    {A : Type 0} (p q : A → Bool) (l : List A)
    → ((a : A) → p a ≡ true → q a ≡ true)
    → count p l ≤ count q l
count_mono p q [] h = omega arith
count_mono p q (x ∷ l) h = ground (arith, h x, count_mono p q l h)

pub missing-append : (u path more : List String) → missing u (path ++ more) ≤ missing u path
unfolding missing
missing-append u path more = count_mono _ _ u (λ k h. ground (arith, contains-append k path more))

count_less :
    (p q : String → Bool) (k : String) (l : List String)
    → ((a : String) → p a ≡ true → q a ≡ true)
    → contains k l ≡ true
    → p k ≡ false
    → q k ≡ true
    → count p l < count q l
count_less p q k [] h there pk qk = cc (contains-nil k)
count_less p q k (x ∷ l) h there pk qk = elim (Bool-cases (k == x)) [
  | inl e ↦ let same = (eq_iff k x).0 e in ground (arith, ap p same, ap q same, count_mono p q l h)
  | inr ne ↦ ground (arith, h x, count_less p q k l h, contains-cons k x l)
]

pub missing-snoc :
    (u path : List String) (k : String)
    → contains k u ≡ true
    → contains k path ≡ false
    → missing u (path ++ k ∷ []) < missing u path
unfolding missing
missing-snoc u path k there new =
    count_less _ _ k u (λ j h. ground (arith, contains-append j path (k ∷ []))) there
      (ground (arith, contains-append k path (k ∷ []), contains-cons k k [], eq_iff k k))
      (ground arith)

count-le-length : (p : String → Bool) (l : List String) → count p l ≤ length l
count-le-length p [] = omega arith
count-le-length p (x ∷ l) = ground (arith, count-le-length p l)

pub missing-le : (u path : List String) → missing u path ≤ length u
unfolding missing
missing-le u path = count-le-length (is_new path) u
