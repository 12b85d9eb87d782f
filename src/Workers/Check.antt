-- ===== src/Workers/Check.antt =====
-- A turn of the loop of `WorkerManager.run` of opsiconfd/manager.py, once all workers have started.
-- Nothing else changes the manager between the steps of a turn.
use opsiconfd.Prelude.{
  ℕ, ◌+◌, List, [], ◌∷◌, ◌++◌, Option, none, some, Bool, true, false, if◌then◌else◌, ltb, leb,
}
use opsiconfd.Prelude.Effect.{Effect, done, ◌>>◌}
use opsiconfd.Workers.Data.{
  System, Settings, Error, Worker, Entry, own, other, World, WorkerState, running, vanished,
  current, set_state,
}
use opsiconfd.Workers.Stop.{is_running}
use opsiconfd.Workers.Pool.{restart_worker}
use opsiconfd.Workers.Reports.{Readers, update_worker_state}

abbrev is_state_running : WorkerState → Bool
is_state_running running = true
is_state_running _ = false

module _ {O P : Type 0} (sys : System O P) (settings : Settings) where
  open sys use {now, sleep, rss}
  open settings use {
    worker_restart_time, worker_restart_mem, worker_restart_mem_interval, restart_vanished_workers,
    worker_restart_gap, worker_check_interval,
  }

  -- Whether a worker has been running for too long.
  unfoldable pub is_too_old : O → Worker P → Bool
  is_too_old o w =
      if ltb 0 worker_restart_time then leb (w.create_time + worker_restart_time) (now o) else false

  abbrev since : O → Option ℕ → ℕ
  since o none = now o
  since o (some n) = n

  -- The worker with the time since when it uses too much memory, and whether that is for too long.
  unfoldable pub check_memory : O → Worker P → Worker P × Bool
  check_memory o w =
      if ltb 0 worker_restart_mem
      then (if leb worker_restart_mem (rss w.worker_pid o)
          then (
            record w { max_mem_exceeded_since = some (since o w.max_mem_exceeded_since) },
            leb (since o w.max_mem_exceeded_since + worker_restart_mem_interval) (now o),
          )
          else (record w { max_mem_exceeded_since = none }, false))
      else (w, false)

  abbrev times : Bool → Worker P → List (Worker P)
  times b w = if b then w ∷ [] else []

  -- What becomes of a worker, and its entries in the list of those to restart.
  unfoldable pub check_worker : Bool → O → Worker P → Worker P × List (Worker P)
  check_worker all o w =
      if all
      then (w, w ∷ [])
      else if is_running sys w o
      then (let old = is_too_old o w in
          let (w', greedy) = check_memory o (set_state running w) in
          (w', times old w' ++ times greedy w'))
      else if is_state_running w.worker_state
      then (let w' = set_state vanished w in (w', times restart_vanished_workers w'))
      else (w, [])

  unfoldable pub check_workers : Bool → O → List (Entry P) → List (Entry P) × List (Worker P)
  check_workers all o [] = ([], [])
  check_workers all o (other i ∷ es) = let (es', ws) = check_workers all o es in (other i ∷ es', ws)
  check_workers all o (own w ∷ es) =
      let (w', vs) = check_worker all o w in
      let (es', ws) = check_workers all o es in (own w' ∷ es', vs ++ ws)

  unfoldable pub restart_all : List (Worker P) → Effect (World O P) Error (Unit {0})
  restart_all [] t = (done tt, t)
  restart_all (w ∷ ws) t = elim t.should_stop [
    | true ↦ (done tt, t)
    | false ↦
        (do
          restart_worker sys settings (current w t.workers)
          λ t'. restart_all ws (record t' { system = sleep worker_restart_gap t'.system }))
          t
  ]

  -- One turn.
  unfoldable pub turn : Readers → Effect (World O P) Error (Unit {0})
  turn readers t =
      let (es, ws) = check_workers t.should_restart_workers t.system t.workers in
      (do
        restart_all ws
        λ t'.
            let u = update_worker_state readers settings t' in
            (
              done tt,
              record u {
                should_restart_workers = false;
                system = sleep worker_check_interval u.system;
              },
            ))
        (record t { workers = es })
