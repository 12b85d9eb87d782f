-- ===== src/Dhcp/Removed.antt =====
-- `remove_components` removes from the list that it runs over: what stays of it.
use opsiconfd.Prelude.{
  ℕ, zero, suc, List, [], ◌∷◌, ◌++◌, none, some, ◌≡◌, refl, ap, ◌∙◌, arith, get_elem?, erase_idx,
  length, sym, ◌≤◌,
}
use opsiconfd.Dhcp.Hosts.{remove_at, remove_components}

-- The second item, the fourth, and so on.
abbrev pub every_second : {A : Type 0} → List A → List A
every_second [] = []
every_second (x ∷ []) = []
every_second (x ∷ y ∷ xs) = y ∷ every_second xs

get_elem?-append :
    {A : Type 0} (seen xs : List A) (x : A) → get_elem? (seen ++ x ∷ xs) (length seen) ≡ some x
get_elem?-append [] xs x = refl
get_elem?-append (y ∷ seen) xs x = get_elem?-append seen xs x

erase_idx-append :
    {A : Type 0} (seen xs : List A) (x : A) → erase_idx (seen ++ x ∷ xs) (length seen) ≡ seen ++ xs
erase_idx-append [] xs x = refl
erase_idx-append (y ∷ seen) xs x = ap (◌∷◌ y) (erase_idx-append seen xs x)

length-snoc : {A : Type 0} (seen : List A) (x : A) → length (seen ++ x ∷ []) ≡ suc (length seen)
length-snoc [] x = refl
length-snoc (y ∷ seen) x = ap suc (length-snoc seen x)

append_step : {A : Type 0} (seen xs : List A) (y : A) → (seen ++ y ∷ []) ++ xs ≡ seen ++ y ∷ xs
append_step [] xs y = refl
append_step (x ∷ seen) xs y = ap (◌∷◌ x) (append_step seen xs y)

-- A step removes the item at the position and goes on behind the item that moves there.
remove_at-step :
    {A : Type 0} (n : ℕ) (seen xs : List A) (x : A)
    → remove_at (suc n) (length seen) (seen ++ x ∷ xs)
      ≡ remove_at n (suc (length seen)) (seen ++ xs)
unfolding remove_at
remove_at-step n seen xs x =
    ap
      (λ o. elim o [
        | none ↦ seen ++ x ∷ xs
        | some _ ↦ remove_at n (suc (length seen)) (erase_idx (seen ++ x ∷ xs) (length seen))
      ])
      (get_elem?-append seen xs x)
    ∙ ap (remove_at n (suc (length seen))) (erase_idx-append seen xs x)

get_elem?-past : {A : Type 0} (xs : List A) (i : ℕ) → length xs ≤ i → get_elem? xs i ≡ none
get_elem?-past [] i past = refl
get_elem?-past (x ∷ xs) zero past = absurd (omega arith)
get_elem?-past (x ∷ xs) (suc i) past = get_elem?-past xs i (omega arith)

-- The loop ends where the position is past the list.
remove_at-stops : {A : Type 0} (n i : ℕ) (xs : List A) → length xs ≤ i → remove_at n i xs ≡ xs
unfolding remove_at
remove_at-stops zero i xs past = refl
remove_at-stops (suc n) i xs past =
    ap (λ o. elim o [ none ↦ xs | some _ ↦ remove_at n (suc i) (erase_idx xs i) ])
      (get_elem?-past xs i past)

append_nil : {A : Type 0} (xs : List A) → xs ++ [] ≡ xs
append_nil [] = refl
append_nil (x ∷ xs) = ap (◌∷◌ x) (append_nil xs)

remove_at-every_second :
    {A : Type 0} (n : ℕ) (seen xs : List A)
    → length xs ≤ n
    → remove_at n (length seen) (seen ++ xs) ≡ seen ++ every_second xs
remove_at-every_second n seen [] short =
    remove_at-stops n (length seen) (seen ++ []) (rw (append_nil seen) (omega arith))
remove_at-every_second zero seen (x ∷ xs) short = absurd (omega arith)
remove_at-every_second (suc n) seen (x ∷ []) short =
    remove_at-step n seen [] x
    ∙ remove_at-stops n (suc (length seen)) (seen ++ []) (rw (append_nil seen) (omega arith))
remove_at-every_second (suc n) seen (x ∷ y ∷ xs) short =
    remove_at-step n seen (y ∷ xs) x
    ∙ sym (
        ap (λ i. remove_at n i ((seen ++ y ∷ []) ++ xs)) (length-snoc seen y)
        ∙ ap (remove_at n (suc (length seen))) (append_step seen xs y))
    ∙ remove_at-every_second n (seen ++ y ∷ []) xs (omega arith)
    ∙ append_step seen (every_second xs) y

-- `remove_components` keeps the second component of a block, the fourth, and so on, and removes the others only.
pub remove_components-every_second :
    {A : Type 0} (xs : List A) → remove_components xs ≡ every_second xs
unfolding remove_components
remove_components-every_second xs = remove_at-every_second (length xs) [] xs (omega arith)
