-- ===== src/Actions/Partition/Cases.antt =====
-- `join` merges the groups of its two products, and changes no other.
use opsiconfd.Prelude.{
  ℕ, ◌+◌, ◌<◌, String, ◌≡◌, refl, ◌∙◌, ◌⊎◌, inl, inr, List, [], ◌∷◌, ◌++◌, Option, none, some, Bool,
  true, ◌||◌, arith, if◌then◌else◌, ltb, count, get_elem?, erase_idx, Bool-cases, ltb→lt, ap, sym,
}
use opsiconfd.Prelude.Text.{contains, contains-cons, contains-nil}
use opsiconfd.Actions.Partition.{add, update, find_group, modify, merge, add_both, join}
use opsiconfd.Actions.Partition.Join.{
  IsDisjoint, one_if, Joined, contains-add, contains-update, contains-add_both, count-erase_idx,
  count-append, count-modify, get_elem?-erase, erase-modify, modify-modify, find_group-some,
  find_group-none, HasOrNone, count-rest, some_eq,
}

merge-eq :
    (i j : ℕ) (groups : List (List String)) (h : List String)
    → get_elem? groups j ≡ some h
    → merge i j groups ≡ erase_idx (modify i (λ x. update x h) groups) j
unfolding merge
merge-eq i j groups h e = rw (e, merge)

module _ (a b : String) (groups : List (List String)) (disjoint : IsDisjoint groups) where
  one_class :
      (g : List String) (i : ℕ)
      → get_elem? groups i ≡ some g
      → (contains a g || contains b g) ≡ true
      → HasOrNone a g groups
      → HasOrNone b g groups
      → Joined a b groups (add_both a b i groups)
  unfolding add_both
  one_class g i at ends ha hb = record {
    class = add b (add a g);
    rest = erase_idx groups i;
    spread = g ∷ [];
    in_class = λ k. ground (arith, contains-add_both k a b g);
    result_count = λ p. count-modify p (λ h. add b (add a h)) groups i g at;
    groups_count = λ p. ground (arith, count-erase_idx p groups i g at);
    ends = (ends, tt);
    rest_a = count-rest a g _ _ (count-erase_idx (contains a) groups i g at) (disjoint a) ha;
    rest_b = count-rest b g _ _ (count-erase_idx (contains b) groups i g at) (disjoint b) hb;
  }

  no_class :
      count (contains a) groups ≡ 0
      → count (contains b) groups ≡ 0
      → Joined a b groups (groups ++ (add b (a ∷ [])) ∷ [])
  no_class ha hb = record {
    class = add b (a ∷ []);
    rest = groups;
    spread = [];
    in_class = λ k. ground (arith, contains-add k b (a ∷ []), contains-cons k a [], contains-nil k);
    result_count = λ p. ground (arith, count-append p groups (add b (a ∷ []) ∷ []));
    groups_count = λ p. omega arith;
    ends = tt;
    rest_a = ha;
    rest_b = hb;
  }

  module _ (g h : List String) (i j : ℕ) (lt : i < j) (at_i : get_elem? groups i ≡ some g)
      (at_j : get_elem? groups j ≡ some h) where
    abbrev kept : List (List String)
    kept = erase_idx groups j

    abbrev absorb : List String → List String
    absorb x = add b (add a (update x h))

    at_kept : get_elem? kept i ≡ some g
    at_kept = get_elem?-erase groups i j lt ∙ at_i

    add_both-merge : add_both a b i (merge i j groups) ≡ modify i absorb kept
    unfolding add_both
    add_both-merge = rw (merge-eq i j groups h at_j) (
        rw (erase-modify (λ x. update x h) groups i j lt)
          (modify-modify (λ x. add b (add a x)) (λ x. update x h) kept i))

    counts :
        (p : List String → Bool)
        → count p groups ≡ one_if (p h) + (one_if (p g) + count p (erase_idx kept i))
    counts p = ground (arith, count-erase_idx p groups j h at_j, count-erase_idx p kept i g at_kept)

    two_classes :
        (contains a g ≡ true) × (contains b h ≡ true)
          ⊎ (contains b g ≡ true) × (contains a h ≡ true)
        → Joined a b groups (add_both a b i (merge i j groups))
    two_classes ends = record {
      class = absorb g;
      rest = erase_idx kept i;
      spread = g ∷ h ∷ [];
      in_class = λ k. ground (arith, contains-add_both k a b (update g h), contains-update k g h);
      result_count = λ p. rw add_both-merge (count-modify p absorb kept i g at_kept);
      groups_count = λ p. ground (arith, counts p);
      ends = ground arith;
      rest_a = ground (arith, counts (contains a), disjoint a);
      rest_b = ground (arith, counts (contains b), disjoint b);
    }

  found_both :
      (g h : List String) (i j : ℕ)
      → get_elem? groups i ≡ some g
      → get_elem? groups j ≡ some h
      → contains a g ≡ true
      → contains b h ≡ true
      → Joined a b groups (
          if ltb i j
          then add_both a b i (merge i j groups)
          else if ltb j i
          then add_both a b j (merge j i groups)
          else add_both a b i groups)
  found_both g h i j at_i at_j has_a has_b = elim (Bool-cases (ltb i j)) [
    | inl lt ↦ rw lt (two_classes g h i j (ltb→lt i j lt) at_i at_j (inl (has_a, has_b)))
    | inr ge ↦ elim (Bool-cases (ltb j i)) [
      | inl lt ↦ rw (ge, lt) (two_classes h g j i (ltb→lt j i lt) at_j at_i (inr (has_b, has_a)))
      | inr le ↦
          let same : i ≡ j = ground arith in
          let e : some g ≡ some h = (sym at_i ∙ ap (get_elem? groups) same) ∙ at_j in
          rw (ge, le)
            (one_class g i at_i (ground arith) (inl has_a)
              (inl (ap (contains b) (some_eq e) ∙ has_b)))
    ]
  ]

  -- Every case of `join`.
  pub Joined-join : Joined a b groups (join a b groups)
  unfolding join
  Joined-join = cases (find_group a groups) refl (find_group b groups) refl
    where
      cases :
          (o : Option ℕ)
          → find_group a groups ≡ o
          → (q : Option ℕ) → find_group b groups ≡ q
          → Joined a b groups (join a b groups)
      cases none e none f =
          rw (e, join) (rw f (no_class (find_group-none a groups e) (find_group-none b groups f)))
      cases none e (some j) f =
          let (h, at, has_b) = find_group-some b groups j f in
          rw (e, join)
            (rw f (one_class h j at (ground arith) (inr (find_group-none a groups e)) (inl has_b)))
      cases (some i) e none f =
          let (g, at, has_a) = find_group-some a groups i e in
          rw (e, join)
            (rw f (one_class g i at (ground arith) (inl has_a) (inr (find_group-none b groups f))))
      cases (some i) e (some j) f =
          let (g, at_i, has_a) = find_group-some a groups i e in
          let (h, at_j, has_b) = find_group-some b groups j f in
          rw (e, join) (rw f (found_both g h i j at_i at_j has_a has_b))
