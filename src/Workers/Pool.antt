-- ===== src/Workers/Pool.antt =====
-- `start_worker`, `restart_worker`, `adjust_worker_count` and `reload` of `WorkerManager` in
-- opsiconfd/manager.py. The loops of `adjust_worker_count` take fuel: each round of the first adds a
-- worker and each of the second removes one, so that the count and the number of entries are enough.
pub mod Fresh
pub mod Adjust
use opsiconfd.Prelude.{
  ℕ, zero, suc, List, [], ◌∷◌, Option, none, some, Bool, true, false, if◌then◌else◌, ltb, eqb,
  length,
}
use opsiconfd.Prelude.Effect.{Effect, Outcome, done, raised, pure, raise, change, ◌>>=◌, ◌>>◌}
use opsiconfd.Workers.Data.{
  System, Settings, Error, socket_not_initialized, server_process_failed, index_error, out_of_fuel,
  Worker, WorkerInfo, Entry, own, World, starting, get_workers, put, write_back, last, current,
  next_num, new_worker, set_state, set_pid,
}
use opsiconfd.Workers.Stop.{is_running, stop_worker}

module _ {O P : Type 0} (sys : System O P) (settings : Settings) where
  open sys use {now, spawn, pid, hangup}

  abbrev Act : Type 0 → Type 0
  Act = Effect (World O P) Error

  -- The worker that `start_worker` starts: the one that it is given, or a new one.
  unfoldable pub chosen : Option (Worker P) → World O P → Worker P
  chosen (some w) t = w
  chosen none t = new_worker settings.node (next_num (get_workers t.workers)) (now t.system)

  -- `start_server_process`, and the worker in the dict.
  unfoldable pub launch : Worker P → Act (Unit {0})
  launch w t =
      let (p, o) = spawn t.system in
      let w' = record (set_state starting w) { process = some p } in
      if eqb (pid p) 0
      then (
        raised server_process_failed,
        record t { system = o; workers = write_back (w' ∷ []) t.workers },
      )
      else (done tt, record t { system = o; workers = put (own (set_pid (pid p) w')) t.workers })

  unfoldable pub start_worker : Option (Worker P) → Act (Unit {0})
  start_worker given t =
      if t.has_socket then launch (chosen given t) t else (raised socket_not_initialized, t)

  -- The worker object after `stop_worker(worker, wait=True, remove_worker=False)` is in the dict.
  unfoldable pub restart_worker : Worker P → Act (Unit {0})
  restart_worker w t =
      if is_running sys w t.system
      then (do
        stop_worker sys settings (w ∷ []) false true false
        λ t'. start_worker (some (current w t'.workers)) t')
          t
      else start_worker (some w) t

  unfoldable pub start_missing : ℕ → Act (Unit {0})
  start_missing zero t =
      if ltb (length t.workers) settings.count then (raised out_of_fuel, t) else (done tt, t)
  start_missing (suc n) t = elim (ltb (length t.workers) settings.count) [
    | true ↦ (start_worker none >> start_missing n) t
    | false ↦ (done tt, t)
  ]

  -- `self.stop_worker(self.get_workers()[-1])`
  unfoldable pub stop_last : Act (Unit {0})
  stop_last t = elim (last (get_workers t.workers)) [
    | none ↦ (raised index_error, t)
    | some w ↦ stop_worker sys settings (w ∷ []) false true true t
  ]

  unfoldable pub stop_surplus : ℕ → Act (Unit {0})
  stop_surplus zero t =
      if ltb settings.count (length t.workers) then (raised out_of_fuel, t) else (done tt, t)
  stop_surplus (suc n) t = elim (ltb settings.count (length t.workers)) [
    | true ↦ (stop_last >> stop_surplus n) t
    | false ↦ (done tt, t)
  ]

  unfoldable pub adjust_worker_count : Act (Unit {0})
  adjust_worker_count t =
      (start_missing settings.count >> (λ t. stop_surplus (length t.workers) t)) t

  unfoldable pub hangup_all : List (Worker P) → O → O
  hangup_all [] o = o
  hangup_all (w ∷ ws) o = hangup_all ws (hangup w.worker_pid o)

  -- `reload`, once `check_modules` has limited the count.
  unfoldable pub reload : Act (Unit {0})
  reload t = adjust_worker_count (record t { system = hangup_all (get_workers t.workers) t.system })
