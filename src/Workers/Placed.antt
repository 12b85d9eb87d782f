-- ===== src/Workers/Placed.antt =====
-- Which entries of the dict are of which node.
use opsiconfd.Prelude.{
  ◌+◌, ◌≡◌, ◌∙◌, refl, sym, subst, String, ◌==◌, List, [], ◌∷◌, true, false, arith, ap, eq_refl,
  All, length, if◌then◌else◌,
}
use opsiconfd.Workers.Data.{
  Worker, WorkerInfo, Entry, own, other, get_workers, pop, pop_all, same_id,
}

pub same_id_refl : (i : WorkerInfo) → same_id i i ≡ true
unfolding same_id
same_id_refl i = ground (arith, eq_refl i.node_name)

module _ {P : Type 0} where
  -- The entries of this node are its workers.
  abbrev pub IsAt : String → Entry P → Type 0
  IsAt node (own w) = w.node_name ≡ node
  IsAt node (other i) = (i.node_name == node) ≡ false

  abbrev pub IsPlaced : String → List (Entry P) → Type 0
  IsPlaced node = All (IsAt node)

  -- The entries that other nodes have.
  abbrev pub others : List (Entry P) → List (Entry P)
  others [] = []
  others (own w ∷ es) = others es
  others (other i ∷ es) = other i ∷ others es

  pop_all-other :
      (node : String) (i : WorkerInfo) (ws : List (Worker P)) (es : List (Entry P))
      → (i.node_name == node) ≡ false
      → All (λ w. w.node_name ≡ node) ws
      → pop_all ws (other i ∷ es) ≡ other i ∷ pop_all ws es
  unfolding pop_all pop same_id
  pop_all-other node i [] es h k = refl
  pop_all-other node i (w ∷ ws) es h k =
      rw (subst (λ n. (i.node_name == n) ≡ false) (sym k.0) h)
        (pop_all-other node i ws (pop w.info es) h k.1)

  pub get_workers-IsPlaced :
      (node : String) (es : List (Entry P))
      → IsPlaced node es
      → All (λ w. w.node_name ≡ node) (get_workers es)
  unfolding get_workers
  get_workers-IsPlaced node [] h = tt
  get_workers-IsPlaced node (own w ∷ es) h = (h.0, get_workers-IsPlaced node es h.1)
  get_workers-IsPlaced node (other i ∷ es) h = get_workers-IsPlaced node es h.1

  pub pop_all-get_workers :
      (node : String) (es : List (Entry P))
      → IsPlaced node es
      → pop_all (get_workers es) es ≡ others es
  unfolding get_workers pop_all pop
  pop_all-get_workers node [] h = refl
  pop_all-get_workers node (own w ∷ es) h =
      subst (λ b. pop_all (get_workers es) (if b then es else own w ∷ pop w.info es) ≡ others es)
        (sym (same_id_refl w.info)) (pop_all-get_workers node es h.1)
  pop_all-get_workers node (other i ∷ es) h =
      pop_all-other node i (get_workers es) es h.0 (get_workers-IsPlaced node es h.1)
      ∙ ap (λ es. other i ∷ es) (pop_all-get_workers node es h.1)

  pub length-others :
      (es : List (Entry P)) → length es ≡ length (others es) + length (get_workers es)
  unfolding get_workers
  length-others [] = refl
  length-others (own w ∷ es) = omega (arith, length-others es)
  length-others (other i ∷ es) = omega (arith, length-others es)
