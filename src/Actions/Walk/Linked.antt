-- ===== src/Actions/Walk/Linked.antt =====
-- The groups of products are the connected components of the registered dependencies.
use opsiconfd.Prelude.{
  ℕ, String, ◌≡◌, ◌⊎◌, refl, inl, inr, List, [], ◌∷◌, ◌++◌, Option, Bool, true, false, ◌||◌, arith,
  if◌then◌else◌, ◌==◌, eq_iff, eq_refl, All, All-append, All-imp, Bool-cases, subst, sym, any,
  and-eq-true,
}
use opsiconfd.Prelude.Dict.{Dict, insert, lookup-insert}
use mathlib.Core.List.{Memᴰ}
use opsiconfd.Actions.Data.{ProductDependency, Product, Action}
use opsiconfd.Actions.Error.{returns}
use opsiconfd.Actions.Partition.{join}
use opsiconfd.Actions.Partition.Join.{IsDisjoint, together}
use opsiconfd.Actions.Partition.Classes.{touches, together-join, join-IsDisjoint}
use opsiconfd.Actions.Walk.{
  Lookups, Sorter, get_list, add_unsorted, find_product, register, process_dependencies,
}
use opsiconfd.Actions.Walk.Rule.{OnOk, Keeps, process_dependencies_keeps}
use opsiconfd.Actions.Walk.Fuel.{FindsOwn, IsClosed}

-- Products that registered dependencies connect, in either direction and over any number of them.
pub data Linked (deps : Dict (List ProductDependency)) : String → String → Type 0 where
  edge :
      {x y : String} (d : ProductDependency)
      → Memᴰ d (get_list x deps)
      → d.required_product_id ≡ y
      → Linked deps x y
  back : {x y : String} → Linked deps x y → Linked deps y x
  chain : {x y z : String} → Linked deps x y → Linked deps y z → Linked deps x z

-- The groups of the sorter, and the dependencies that it has registered.
pub record IsLinked (s : Sorter) : Type 0 where
  pub disjoint : IsDisjoint s.product_id_groups
  pub sound :
      (k : String)
      → All
          (λ d. together k d.required_product_id s.product_id_groups ≡ true)
          (get_list k s.dependencies)
  pub complete :
      (x y : String) → together x y s.product_id_groups ≡ true → Linked s.dependencies x y

get_list-insert :
    {V : Type 0} (k j : String) (vs : List V) (d : Dict (List V))
    → get_list j (insert k vs d) ≡ (if k == j then vs else get_list j d)
get_list-insert k j vs d = ground (arith, lookup-insert k j vs d)

mem-append_left : {A : Type 0} {a : A} {l : List A} (m : List A) → Memᴰ a l → Memᴰ a (l ++ m)
mem-append_left m (Memᴰ.head e) = Memᴰ.head e
mem-append_left m (Memᴰ.tail h) = Memᴰ.tail (mem-append_left m h)

mem-last : {A : Type 0} (a : A) (l : List A) → Memᴰ a (l ++ a ∷ [])
mem-last a [] = Memᴰ.head refl
mem-last a (x ∷ l) = Memᴰ.tail (mem-last a l)

pub mem-All : {A : Type 0} (P : A → Type 0) {a : A} {l : List A} → Memᴰ a l → All P l → P a
mem-All P (Memᴰ.head e) h = subst P (sym e) h.0
mem-All P (Memᴰ.tail m) h = mem-All P m h.1

or-cases : (a b : Bool) → (a || b) ≡ true → (a ≡ true) ⊎ (b ≡ true)
or-cases true b h = inl refl
or-cases false b h = inr h

module _ (k : String) (d : ProductDependency) (deps : Dict (List ProductDependency)) where
  abbrev grown : Dict (List ProductDependency)
  grown = insert k (get_list k deps ++ d ∷ []) deps

  mem-grown :
      (x : String) (e : ProductDependency) → Memᴰ e (get_list x deps) → Memᴰ e (get_list x grown)
  mem-grown x e m = elim (Bool-cases (k == x)) [
    | inl same ↦
        rw get_list-insert (rw same (mem-append_left (d ∷ []) (rw (← (eq_iff k x).0 same) at m)))
    | inr other ↦ rw get_list-insert (rw other m)
  ]

  Linked-grown : {x y : String} → Linked deps x y → Linked grown x y
  Linked-grown (edge e m q) = edge e (mem-grown _ e m) q
  Linked-grown (back l) = back (Linked-grown l)
  Linked-grown (chain l m) = chain (Linked-grown l) (Linked-grown m)

  new_edge : Linked grown k d.required_product_id
  new_edge = edge d (rw get_list-insert (rw eq_refl (mem-last d (get_list k deps)))) refl

module _ (k : String) (d : ProductDependency) (s : Sorter) (h : IsLinked s) where
  abbrev required : String
  required = d.required_product_id

  abbrev linked_sorter : Sorter
  linked_sorter = record s {
    dependencies = grown k d s.dependencies;
    product_id_groups = join k required s.product_id_groups;
  }

  keep_together :
      (x y : String)
      → together x y s.product_id_groups ≡ true
      → together x y (join k required s.product_id_groups) ≡ true
  keep_together x y t = rw (together-join k required s.product_id_groups x y h.disjoint) (rw t)

  ends_together : together k required (join k required s.product_id_groups) ≡ true
  ends_together =
      rw (together-join k required s.product_id_groups k required h.disjoint)
        (ground (arith, eq_refl k, eq_refl required))

  sound_keep :
      (j : String)
      → All
          (λ e. together j e.required_product_id (join k required s.product_id_groups) ≡ true)
          (get_list j s.dependencies)
  sound_keep j =
      All-imp (λ (e : ProductDependency). keep_together j e.required_product_id)
        (get_list j s.dependencies) (h.sound j)

  abbrev SoundAt : String → Type 0
  SoundAt j =
      All (λ e. together j e.required_product_id (join k required s.product_id_groups) ≡ true)
        (get_list j (grown k d s.dependencies))

  SoundAt-self : SoundAt k
  SoundAt-self = rw get_list-insert (
      rw eq_refl
        (All-append _ (get_list k s.dependencies) (d ∷ []) (sound_keep k) (ends_together, tt)))

  sound_at : (j : String) → SoundAt j
  sound_at j = elim (Bool-cases (k == j)) [
    | inl same ↦ subst SoundAt ((eq_iff k j).0 same) SoundAt-self
    | inr other ↦ rw get_list-insert (rw other (sound_keep j))
  ]

  touches-cases :
      (x : String)
      → touches k required s.product_id_groups x ≡ true
      → ((x == k) ≡ true)
        ⊎ ((x == required) ≡ true)
        ⊎ (together x k s.product_id_groups ≡ true)
        ⊎ (together x required s.product_id_groups ≡ true)
  touches-cases x t = ground arith

  touches-Linked :
      (x : String)
      → touches k required s.product_id_groups x ≡ true
      → Linked (grown k d s.dependencies) x k
  touches-Linked x t =
      let e = new_edge k d s.dependencies in
      elim (touches-cases x t) [
        | inl is_k ↦ rw ((eq_iff x k).0 is_k) (chain e (back e))
        | inr (inl is_required) ↦ rw ((eq_iff x required).0 is_required) (back e)
        | inr (inr (inl with_k)) ↦ Linked-grown k d s.dependencies (h.complete x k with_k)
        | inr (inr (inr with_required)) ↦
            chain (Linked-grown k d s.dependencies (h.complete x required with_required)) (back e)
      ]

  complete_at :
      (x y : String)
      → together x y (join k required s.product_id_groups) ≡ true
      → Linked (grown k d s.dependencies) x y
  complete_at x y t =
      elim (or-cases (together x y s.product_id_groups) _
        (rw (together-join k required s.product_id_groups x y h.disjoint) at t)) [
          | inl before ↦ Linked-grown k d s.dependencies (h.complete x y before)
          | inr both ↦
              let (at_x, at_y) = and-eq-true _ _ both in
              chain (touches-Linked x at_x) (back (touches-Linked y at_y))
        ]

  linked_sorter-IsLinked : IsLinked linked_sorter
  linked_sorter-IsLinked = record {
    disjoint = join-IsDisjoint k required s.product_id_groups h.disjoint;
    sound = sound_at;
    complete = complete_at;
  }

pub add_unsorted-IsLinked : (a : Action) (s : Sorter) → IsLinked s → IsLinked (add_unsorted a s)
unfolding add_unsorted
add_unsorted-IsLinked a s h = record {
  disjoint = h.disjoint;
  sound = h.sound;
  complete = h.complete;
}

module _ (l : Lookups) (ignore : Bool) (products : List String) (closed : IsClosed l products) where
  found_own :
      (id : String) (v p : Option String) (product : Product)
      → find_product l id v p ≡ returns product
      → product.id ≡ id
  found_own id v p product e = subst (FindsOwn id) e (closed.finds id v p)

  register-IsLinked :
      (a : Action) (product : Product) (d : ProductDependency) (dep_product : Product) (s : Sorter)
      → product.id ≡ a.product_id
      → dep_product.id ≡ d.required_product_id
      → IsLinked s
      → IsLinked (register l a product d dep_product s)
  unfolding register
  register-IsLinked a product d dep_product s own own' h =
      elim (Bool-cases (any (λ k. l.same_dependency k d) (get_list product.id s.dependencies))) [
        | inl known ↦ rw (known, register) h
        | inr new ↦ rw (new, register) (rw (own, own') (linked_sorter-IsLinked a.product_id d s h))
      ]

  IsLinked-keeps : Keeps l ignore (λ st. IsLinked st.1)
  IsLinked-keeps = record {
    enter = λ k path s h. h;
    adds = λ d dep_product a path s found new own h. add_unsorted-IsLinked a s h;
    registers = λ a product d dep_product path s found dep_found new h.
        register-IsLinked a product d dep_product s (found_own _ _ _ product found)
          (found_own _ _ _ dep_product dep_found) h;
  }

  pub process_dependencies-IsLinked :
      (fuel : ℕ) (a : Action) (path : List String) (s : Sorter)
      → IsLinked s
      → OnOk (λ st. IsLinked st.1) (process_dependencies l ignore fuel a (path, s))
  process_dependencies-IsLinked fuel a path s h =
      process_dependencies_keeps l ignore IsLinked-keeps fuel a (path, s) h
