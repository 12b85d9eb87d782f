-- ===== src/Workers/Pool/Fresh.antt =====
-- A new worker gets an id that no entry has, and stopping a worker takes its entry only.
use opsiconfd.Prelude.{
  suc, ◌<◌, ◌≡◌, refl, subst, ap, String, ◌==◌, List, [], ◌∷◌, Bool, true, false, arith, eq_iff,
  All, All-imp, length, if◌then◌else◌, none, some,
}
use opsiconfd.Workers.Data.{
  Worker, WorkerInfo, Entry, own, other, info_of, get_workers, put, pop, has, same_id, last,
  top_num, next_num,
}
use opsiconfd.Workers.Placed.{IsAt, IsPlaced, others, same_id_refl, get_workers-IsPlaced}

apart :
    (j i : WorkerInfo) {node : String}
    → same_id j i ≡ true
    → (j.node_name == node) ≡ false
    → ¬ (i.node_name ≡ node)
unfolding same_id
apart j i {node} s h e = ground (arith, eq_iff j.node_name i.node_name, eq_iff j.node_name node)

module _ {P : Type 0} where
  -- What an operation on the dict keeps of the entries of other nodes.
  pub record AreKept (node : String) (es fs : List (Entry P)) : Type 0 where
    pub same_others : others fs ≡ others es
    pub placed : IsPlaced node fs

  has-above :
      (node : String) (i : WorkerInfo) (es : List (Entry P))
      → IsPlaced node es
      → i.node_name ≡ node
      → top_num (get_workers es) < i.worker_num
      → has i es ≡ false
  unfolding has get_workers top_num same_id
  has-above node i [] h e k = refl
  has-above node i (own w ∷ es) h e k = ground (arith, has-above node i es h.1 e)
  has-above node i (other j ∷ es) h e k = ground (
    arith,
    has-above node i es h.1 e,
    eq_iff j.node_name i.node_name,
    eq_iff j.node_name node,
    h.0,
  )

  next_num-above : (ws : List (Worker P)) → top_num ws < next_num ws
  unfolding next_num top_num
  next_num-above [] = omega arith
  next_num-above (w ∷ ws) = ground arith

  AreKept-own :
      (node : String) (v : Worker P) (es fs : List (Entry P))
      → v.node_name ≡ node
      → AreKept node es fs
      → AreKept node (own v ∷ es) (own v ∷ fs)
  AreKept-own node v es fs e h = record { same_others = h.same_others; placed = (e, h.placed) }

  AreKept-other :
      (node : String) (j : WorkerInfo) (es fs : List (Entry P))
      → (j.node_name == node) ≡ false
      → AreKept node es fs
      → AreKept node (other j ∷ es) (other j ∷ fs)
  AreKept-other node j es fs e h = record {
    same_others = ap (λ r. other j ∷ r) h.same_others;
    placed = (e, h.placed);
  }

  -- An entry in front that does not have the id stays there.
  pass :
      (node : String) (e : Entry P) (es fs : List (Entry P))
      → IsAt node e
      → AreKept node es fs
      → AreKept node (e ∷ es) (e ∷ fs)
  pass node (own v) es fs h k = AreKept-own node v es fs h k
  pass node (other j) es fs h k = AreKept-other node j es fs h k

  put-new :
      (node : String) (w : Worker P) (es : List (Entry P))
      → IsPlaced node es
      → w.node_name ≡ node
      → has w.info es ≡ false
      → AreKept node es (put (own w) es) × (length (put (own w) es) ≡ suc (length es))
  unfolding put has
  put-new node w [] h e k = (record { same_others = refl; placed = (e, tt) }, refl)
  put-new node w (f ∷ es) h e k = putting (same_id (info_of f) w.info) k (put-new node w es h.1 e)
    where
      putting :
          (b : Bool)
          → (if b then true else has w.info es) ≡ false
          → (has w.info es ≡ false
              → AreKept node es (put (own w) es) × (length (put (own w) es) ≡ suc (length es)))
          → let fs = if b then own w ∷ es else f ∷ put (own w) es in
            AreKept node (f ∷ es) fs × (length fs ≡ suc (suc (length es)))
      putting true k rest = absurd (cc k)
      putting false k rest = (pass node f es _ h.0 (rest k).0, ap (λ n. suc n) (rest k).1)

  pub pop-own :
      (node : String) (i : WorkerInfo) (es : List (Entry P))
      → IsPlaced node es
      → i.node_name ≡ node
      → has i es ≡ true
      → AreKept node es (pop i es) × (suc (length (pop i es)) ≡ length es)
  unfolding pop has
  pop-own node i [] h e k = absurd (cc k)
  pop-own node i (f ∷ es) h e k =
      popping f (same_id (info_of f) i) refl h.0 k (pop-own node i es h.1 e)
    where
      popping :
          (f : Entry P) (b : Bool)
          → same_id (info_of f) i ≡ b
          → IsAt node f
          → (if b then true else has i es) ≡ true
          → (has i es ≡ true → AreKept node es (pop i es) × (suc (length (pop i es)) ≡ length es))
          → let fs = if b then es else f ∷ pop i es in
            AreKept node (f ∷ es) fs × (suc (length fs) ≡ suc (length es))
      popping (own v) true s p k rest = (record { same_others = refl; placed = h.1 }, refl)
      popping (other j) true s p k rest = absurd (apart j i s p e)
      popping f false s p k rest = (pass node f es _ p (rest k).0, ap (λ n. suc n) (rest k).1)

  last-All :
      (Q : Worker P → Type 0) (w : Worker P) (ws : List (Worker P))
      → All Q ws
      → last ws ≡ some w
      → Q w
  unfolding last
  last-All Q w [] h e = absurd (cc e)
  last-All Q w (v ∷ []) h e = subst Q (cc e) h.0
  last-All Q w (v ∷ u ∷ ws) h e = last-All Q w (u ∷ ws) h.1 e

  has-later :
      (e : Entry P) (es : List (Entry P)) (w : Worker P)
      → has w.info es ≡ true
      → has w.info (e ∷ es) ≡ true
  unfolding has
  has-later e es w h = ground arith

  has-get_workers : (es : List (Entry P)) → All (λ w. has w.info es ≡ true) (get_workers es)
  unfolding has get_workers
  has-get_workers [] = tt
  has-get_workers (other j ∷ es) =
      All-imp (has-later (other j) es) (get_workers es) (has-get_workers es)
  has-get_workers (own v ∷ es) = (
    ground (arith, same_id_refl v.info),
    All-imp (has-later (own v) es) (get_workers es) (has-get_workers es),
  )

  pub last-has :
      (node : String) (w : Worker P) (es : List (Entry P))
      → IsPlaced node es
      → last (get_workers es) ≡ some w
      → (w.node_name ≡ node) × (has w.info es ≡ true)
  last-has node w es h e = (
    last-All (λ w. w.node_name ≡ node) w (get_workers es) (get_workers-IsPlaced node es h) e,
    last-All (λ w. has w.info es ≡ true) w (get_workers es) (has-get_workers es) e,
  )

  pub last-none : (ws : List (Worker P)) → last ws ≡ none → ws ≡ []
  unfolding last
  last-none [] e = refl
  last-none (w ∷ []) e = absurd (cc e)
  last-none (w ∷ v ∷ ws) e = absurd (never v ws e)
    where
      never : (v : Worker P) (ws : List (Worker P)) → ¬ (last (v ∷ ws) ≡ none)
      never v [] e = cc e
      never v (u ∷ ws) e = never u ws e

  pub put-next :
      (node : String) (w : Worker P) (es : List (Entry P))
      → IsPlaced node es
      → w.node_name ≡ node
      → w.worker_num ≡ next_num (get_workers es)
      → AreKept node es (put (own w) es) × (length (put (own w) es) ≡ suc (length es))
  put-next node w es h e k =
      put-new node w es h e
        (has-above node w.info es h e (omega (arith, next_num-above (get_workers es))))
