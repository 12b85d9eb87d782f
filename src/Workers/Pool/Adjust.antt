-- ===== src/Workers/Pool/Adjust.antt =====
-- `adjust_worker_count` ends, and how many workers there are then.
use opsiconfd.Prelude.{
  ℕ, zero, suc, ◌+◌, ◌<◌, ◌≤◌, min, ◌≡◌, ◌∙◌, refl, sym, subst, ap, [], ◌∷◌, true, false, arith,
  length, ltb→lt, none, eqb, ltb, max,
}
use opsiconfd.Prelude.Effect.{
  Ends, Ends-bind, Ends-imp, Ends-weaken, Ends-either, Ends-option, Ends-map,
}
use opsiconfd.Workers.Data.{
  System, IsPosix, Settings, Error, index_error, World, get_workers, pop_all, last, new_worker,
}
use opsiconfd.Workers.Placed.{IsPlaced, others, length-others}
use opsiconfd.Workers.Stop.Ends.{AreGone, stop_worker-ends}
use opsiconfd.Workers.Pool.{
  chosen, launch, start_worker, start_missing, stop_last, stop_surplus, adjust_worker_count,
}
use opsiconfd.Workers.Pool.Fresh.{AreKept, pop-own, last-has, last-none, put-next}

-- What starting workers relies on: a process that was started has an id.
abbrev pub Spawns : {O P : Type 0} → System O P → Type 0
Spawns {O} {P} sys = (o : O) → eqb (sys.pid (sys.spawn o).0) 0 ≡ false

module _ {O P : Type 0} (sys : System O P) (settings : Settings) where
  -- From `t` to `u` nothing changed for the entries of other nodes.
  pub record Keeps (t u : World O P) : Type 0 where
    pub kept : AreKept settings.node t.workers u.workers
    pub same_socket : u.has_socket ≡ t.has_socket

  Keeps-refl : (t : World O P) → IsPlaced settings.node t.workers → Keeps t t
  Keeps-refl t h = record { kept = record { same_others = refl; placed = h }; same_socket = refl }

  Keeps-trans : (t u v : World O P) → Keeps t u → Keeps u v → Keeps t v
  Keeps-trans t u v h k = record {
    kept = record { same_others = k.kept.same_others ∙ h.kept.same_others; placed = k.kept.placed };
    same_socket = k.same_socket ∙ h.same_socket;
  }

  module _ (spawns : Spawns sys) where
    start_new :
        (t : World O P)
        → t.has_socket ≡ true
        → IsPlaced settings.node t.workers
        → Ends
            (λ _ u. Keeps t u × (length u.workers ≡ suc (length t.workers)))
            (λ _ _. ⊥)
            (start_worker sys settings none t)
    unfolding start_worker launch chosen new_worker
    start_new t h k =
        let new = put-next settings.node _ t.workers k refl refl in
        rw (h, spawns t.system) (record { kept = new.0; same_socket = refl }, new.1)

    start_missing-ends :
        (n : ℕ) (t : World O P)
        → t.has_socket ≡ true
        → IsPlaced settings.node t.workers
        → settings.count ≤ n + length t.workers
        → Ends
            (λ _ u. Keeps t u × (length u.workers ≡ max settings.count (length t.workers)))
            (λ _ _. ⊥)
            (start_missing sys settings n t)
    unfolding start_missing
    start_missing-ends zero t h k e = rw (enough) (Keeps-refl t k, omega arith)
      where
        enough : ltb (length t.workers) settings.count ≡ false
        enough = ground arith
    start_missing-ends (suc n) t h k e =
        Ends-either _ (λ _ _. ⊥) (ltb (length t.workers) settings.count) _ _
          (λ few.
            Ends-bind (λ _ u. Keeps t u × (length u.workers ≡ suc (length t.workers))) _ (λ _ _. ⊥)
              (start_worker sys settings none t) _ (start_new t h k)
              (λ _ u g.
                Ends-map
                  (λ _ v. Keeps u v × (length v.workers ≡ max settings.count (length u.workers))) _
                  (λ _ _. ⊥) (start_missing sys settings n u)
                  (start_missing-ends n u (g.0.same_socket ∙ h) g.0.kept.placed
                    (omega (arith, g.1, e)))
                  (λ _ v f. (Keeps-trans t u v g.0 f.0, omega (arith, g.1, f.1, ltb→lt _ _ few)))))
          (λ enough. (Keeps-refl t k, ground arith))

  -- What the second loop raises once no worker of this node is left to stop.
  pub record IsOvercrowded (t : World O P) (e : Error) (u : World O P) : Type 0 where
    pub is_index_error : e ≡ index_error
    pub keeps : Keeps t u
    pub too_many : settings.count < length u.workers
    pub none_left : get_workers u.workers ≡ []

  over : (t u v : World O P) (e : Error) → Keeps t u → IsOvercrowded u e v → IsOvercrowded t e v
  over t u v e h k = record {
    is_index_error = k.is_index_error;
    keeps = Keeps-trans t u v h k.keeps;
    too_many = k.too_many;
    none_left = k.none_left;
  }

  module _ (posix : IsPosix sys) where
    -- One worker of this node is stopped, unless there is none.
    stop_last-ends :
        (t : World O P)
        → IsPlaced settings.node t.workers
        → settings.count < length t.workers
        → Ends
            (λ _ u. Keeps t u × (suc (length u.workers) ≡ length t.workers))
            (IsOvercrowded t)
            (stop_last sys settings t)
    unfolding stop_last pop_all
    stop_last-ends t h many =
        Ends-option _ (IsOvercrowded t) (last (get_workers t.workers)) _ _
          (λ e. record {
            is_index_error = refl;
            keeps = Keeps-refl t h;
            too_many = many;
            none_left = last-none (get_workers t.workers) e;
          })
          (λ w e.
            let at = last-has settings.node w t.workers h e in
            let less = pop-own settings.node w.info t.workers h at.0 at.1 in
            Ends-weaken (λ _. AreGone sys settings posix (w ∷ []) t) _ _ _
              (stop_worker-ends sys settings posix (w ∷ []) false t)
              (λ _ u g. (
                record {
                  kept = subst (AreKept settings.node t.workers) (sym g.popped) less.0;
                  same_socket = g.has_same_socket;
                },
                ap (λ es. suc (length es)) g.popped ∙ less.1,
              )))

    stop_surplus-ends :
        (n : ℕ) (t : World O P)
        → IsPlaced settings.node t.workers
        → length t.workers ≤ n
        → Ends
            (λ _ u. Keeps t u × (length u.workers ≡ min settings.count (length t.workers)))
            (IsOvercrowded t)
            (stop_surplus sys settings n t)
    unfolding stop_surplus
    stop_surplus-ends zero t h e = rw (enough) (Keeps-refl t h, omega arith)
      where
        enough : ltb settings.count (length t.workers) ≡ false
        enough = ground arith
    stop_surplus-ends (suc n) t h e =
        Ends-either _ (IsOvercrowded t) (ltb settings.count (length t.workers)) _ _
          (λ many.
            Ends-bind (λ _ u. Keeps t u × (suc (length u.workers) ≡ length t.workers)) _
              (IsOvercrowded t) (stop_last sys settings t) _ (stop_last-ends t h (ltb→lt _ _ many))
              (λ _ u g.
                Ends-imp
                  (λ _ v. Keeps u v × (length v.workers ≡ min settings.count (length u.workers))) _
                  (IsOvercrowded u) (IsOvercrowded t) (stop_surplus sys settings n u)
                  (stop_surplus-ends n u g.0.kept.placed (omega (arith, g.1, e)))
                  (λ _ v f. (Keeps-trans t u v g.0 f.0, omega (arith, g.1, f.1, ltb→lt _ _ many)))
                  (λ e v f. record {
                    is_index_error = f.is_index_error;
                    keeps = Keeps-trans t u v g.0 f.keeps;
                    too_many = f.too_many;
                    none_left = f.none_left;
                  })))
          (λ enough. (Keeps-refl t h, ground arith))

    -- How `adjust_worker_count` ends: with as many entries as are configured, or for want of a worker.
    adjust_worker_count-ends :
        (t : World O P)
        → Spawns sys
        → t.has_socket ≡ true
        → IsPlaced settings.node t.workers
        → Ends
            (λ _ u. Keeps t u × (length u.workers ≡ settings.count))
            (IsOvercrowded t)
            (adjust_worker_count sys settings t)
    unfolding adjust_worker_count
    adjust_worker_count-ends t spawns h k =
        Ends-bind (λ _ u. Keeps t u × (length u.workers ≡ max settings.count (length t.workers))) _
          (IsOvercrowded t) (start_missing sys settings settings.count t) _
          (Ends-weaken
            (λ _ u. Keeps t u × (length u.workers ≡ max settings.count (length t.workers)))
            (λ _ u. Keeps t u × (length u.workers ≡ max settings.count (length t.workers)))
            (IsOvercrowded t) (start_missing sys settings settings.count t)
            (start_missing-ends spawns settings.count t h k (omega arith)) (λ _ _ g. g))
          (λ _ u g.
            Ends-imp (λ _ v. Keeps u v × (length v.workers ≡ min settings.count (length u.workers)))
              _ (IsOvercrowded u) (IsOvercrowded t) _
              (stop_surplus-ends (length u.workers) u g.0.kept.placed (omega arith))
              (λ _ v f. (Keeps-trans t u v g.0 f.0, omega (arith, g.1, f.1)))
              (λ e v f. over t u v e g.0 f))

    -- If the entries of other nodes are at most as many as the workers that are configured,
    -- `adjust_worker_count` ends without an exception, there are then as many entries as are
    -- configured, and those of other nodes are the same.
    pub adjust_worker_count-reaches :
        (t : World O P)
        → Spawns sys
        → t.has_socket ≡ true
        → IsPlaced settings.node t.workers
        → length (others t.workers) ≤ settings.count
        → Ends
            (λ _ u. (length u.workers ≡ settings.count) × (others u.workers ≡ others t.workers))
            (λ _ _. ⊥)
            (adjust_worker_count sys settings t)
    adjust_worker_count-reaches t spawns h k few =
        Ends-imp (λ _ u. Keeps t u × (length u.workers ≡ settings.count)) _ (IsOvercrowded t)
          (λ _ _. ⊥) (adjust_worker_count sys settings t) (adjust_worker_count-ends t spawns h k)
          (λ _ u g. (g.1, g.0.kept.same_others))
          (λ e u g. omega (
            arith,
            few,
            g.too_many,
            length-others u.workers,
            ap (λ es. length es) g.none_left,
            ap (λ es. length es) g.keeps.kept.same_others,
          ))

    -- If there are more entries of other nodes than workers are configured, `adjust_worker_count`
    -- raises an IndexError, and no worker of this node is left.
    pub adjust_worker_count-overcrowded :
        (t : World O P)
        → Spawns sys
        → t.has_socket ≡ true
        → IsPlaced settings.node t.workers
        → settings.count < length (others t.workers)
        → Ends
            (λ _ _. ⊥)
            (λ e u. (e ≡ index_error) × (get_workers u.workers ≡ []))
            (adjust_worker_count sys settings t)
    adjust_worker_count-overcrowded t spawns h k many =
        Ends-imp (λ _ u. Keeps t u × (length u.workers ≡ settings.count)) _ (IsOvercrowded t) _
          (adjust_worker_count sys settings t) (adjust_worker_count-ends t spawns h k)
          (λ _ u g.
            omega (
              arith,
              many,
              g.1,
              length-others u.workers,
              ap (λ es. length es) g.0.kept.same_others,
            ))
          (λ e u g. (g.is_index_error, g.none_left))
