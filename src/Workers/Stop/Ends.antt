-- ===== src/Workers/Stop/Ends.antt =====
-- Stopping workers ends.
use opsiconfd.Prelude.{
  ◌+◌, ◌-◌, ◌<◌, ◌≡◌, ◌∙◌, refl, ap, subst, List, [], ◌∷◌, Option, none, some, Bool, true, false,
  length, All, arith,
}
use opsiconfd.Prelude.Effect.{Ends, Ends-map}
use opsiconfd.Workers.Data.{System, IsPosix, Settings, Worker, pop_all, World, get_workers}
use opsiconfd.Workers.Stop.{
  wait_for, terminate_workers, stop_worker, stop, finish, stop_fuel, stopped_world, is_running,
  process_alive, terminate_worker,
}
use opsiconfd.Workers.Placed.{IsPlaced, others, pop_all-get_workers}
use opsiconfd.Workers.Stop.Rounds.{
  running, running-le, processes, IsStopped, AllStopped, wait_for-ends,
}

module _ {O P : Type 0} (sys : System O P) (settings : Settings) (posix : IsPosix sys) where
  length-terminate_workers :
      (force : Bool) (ws : List (Worker P)) (o : O)
      → length (terminate_workers sys force ws o).0 ≡ length ws
  unfolding terminate_workers
  length-terminate_workers force [] o = refl
  length-terminate_workers force (w ∷ ws) o =
      omega (arith, length-terminate_workers force ws (terminate_worker sys force w o))

  processes-terminate_workers :
      (force : Bool) (ws : List (Worker P)) (o : O)
      → processes sys (terminate_workers sys force ws o).0 ≡ processes sys ws
  unfolding terminate_workers
  processes-terminate_workers force [] o = refl
  processes-terminate_workers force (w ∷ ws) o =
      ap (λ ps. w.process ∷ ps)
        (processes-terminate_workers force ws (terminate_worker sys force w o))

  -- Every process of `ps` has ended.
  abbrev pub AllEnded : List (Option P) → O → Type 0
  AllEnded ps o = All (λ p. process_alive sys p o ≡ false) ps

  AllEnded-processes :
      (ws : List (Worker P)) (o : O) → All (IsStopped sys o) ws → AllEnded (processes sys ws) o
  unfolding is_running
  AllEnded-processes [] o h = tt
  AllEnded-processes (w ∷ ws) o h = (h.0.ended, AllEnded-processes ws o h.1)

  -- What holds once workers were stopped.
  pub record AreGone (ws : List (Worker P)) (w t : World O P) : Type 0 where
    pub popped : t.workers ≡ pop_all ws w.workers
    pub has_same_socket : t.has_socket ≡ w.has_socket
    pub all_ended : AllEnded (processes sys ws) t.system

  finished :
      (ws : List (Worker P)) (w : World O P) (r : Option (List (Worker P) × O))
      → AllStopped sys (processes sys ws) r
      → Ends (λ _. AreGone ws w) (λ _ _. ⊥) (stopped_world true ws w r)
  unfolding finish
  finished ws w none h = elim h [ ]
  finished ws w (some (ws', o)) h = record {
    popped = refl;
    has_same_socket = refl;
    all_ended = subst (λ ps. AllEnded ps o) h.1 (AllEnded-processes ws' o h.0);
  }

  fuel :
      (force : Bool) (ws : List (Worker P)) (o : O)
      → let (ws', u) = terminate_workers sys force ws o in
        ((sys.now u + settings.worker_stop_timeout) - sys.now u) + running sys ws' u
        < stop_fuel sys settings ws
  fuel force ws o =
      let (ws', u) = terminate_workers sys force ws o in
      omega (arith, running-le sys ws' u, length-terminate_workers force ws o)

  pub stop_worker-ends :
      (ws : List (Worker P)) (force : Bool) (w : World O P)
      → Ends (λ _. AreGone ws w) (λ _ _. ⊥) (stop_worker sys settings ws force true true w)
  unfolding stop_worker
  stop_worker-ends ws force w =
      let (ws', o) = terminate_workers sys force ws w.system in
      finished ws w (wait_for sys settings (stop_fuel sys settings ws) (sys.now o) ws' o) (
        subst
          (λ ps.
            AllStopped sys ps (wait_for sys settings (stop_fuel sys settings ws) (sys.now o) ws' o))
          (processes-terminate_workers force ws w.system)
          (wait_for-ends sys posix settings (stop_fuel sys settings ws) (sys.now o) ws' o
            (fuel force ws w.system)))

  -- Stopping the manager ends, whatever the workers do: each of them has ended, and of the dict the
  -- entries of the other nodes are left.
  pub stop-ends :
      (force : Bool) (w : World O P)
      → IsPlaced settings.node w.workers
      → Ends
          (λ _ t.
            (t.workers ≡ others w.workers)
            × AllEnded (processes sys (get_workers w.workers)) t.system)
          (λ _ _. ⊥)
          (stop sys settings force w)
  unfolding stop
  stop-ends force w h =
      Ends-map (λ _. AreGone (get_workers w.workers) w') _ (λ _ _. ⊥) _
        (stop_worker-ends (get_workers w.workers) force w')
        (λ _ t g. (g.popped ∙ pop_all-get_workers settings.node w.workers h, g.all_ended))
    where
      w' : World O P
      w' = record w { should_stop = true }
