-- ===== src/Workers/Stop.antt =====
-- `WorkerManager.stop_worker` and `stop` of opsiconfd/manager.py. The loop that waits for the
-- workers takes fuel: its rounds are half a second apart, and after the timeout each one kills.
pub mod Rounds
pub mod Ends
use opsiconfd.Prelude.{
  ℕ, zero, suc, ◌+◌, List, [], ◌∷◌, Option, none, some, Bool, true, false, if◌then◌else◌, leb,
  length,
}
use opsiconfd.Prelude.Effect.{Effect, Outcome, done, raised}
use opsiconfd.Workers.Data.{
  System, Settings, Error, out_of_fuel, Worker, Entry, World, stopping, stopped, get_workers,
  pop_all, write_back, set_state, set_pid,
}

abbrev pub set_stopped : {P : Type 0} → Worker P → Worker P
set_stopped w = set_pid 0 (set_state stopped w)

module _ {O P : Type 0} (sys : System O P) where
  open sys use {sleep, is_alive, terminate, kill}

  -- `worker.process and worker.process.is_alive()`
  abbrev pub process_alive : Option P → O → Bool
  process_alive none o = false
  process_alive (some p) o = is_alive p o

  unfoldable pub is_running : Worker P → O → Bool
  is_running w = process_alive w.process

  unfoldable pub terminate_worker : Bool → Worker P → O → O
  terminate_worker force w o = elim w.process [
    | none ↦ o
    | some p ↦
        if is_alive p o
        then (if force then terminate p (sleep 10 (terminate p o)) else terminate p o)
        else o
  ]

  -- The first loop: every worker is stopping, and those that run are told to end.
  unfoldable pub terminate_workers : Bool → List (Worker P) → O → List (Worker P) × O
  terminate_workers force [] o = ([], o)
  terminate_workers force (w ∷ ws) o =
      let (ws', o') = terminate_workers force ws (terminate_worker force w o) in
      (set_state stopping w ∷ ws', o')

  abbrev pub kill_process : Option P → O → O
  kill_process none o = o
  kill_process (some p) o = kill p o

  -- One round of waiting: whether a worker still runs. It ends with the first one that it kills,
  -- so that `rest` is not looked at.
  abbrev looked :
      Bool
      → Bool
      → Worker P
      → List (Worker P)
      → O
      → Bool × (List (Worker P) × O)
      → Bool × (List (Worker P) × O)
  looked late false w ws o (any_alive, (ws', o')) = (any_alive, (set_stopped w ∷ ws', o'))
  looked false true w ws o (_, (ws', o')) = (true, (w ∷ ws', o'))
  looked true true w ws o rest = (true, (w ∷ ws, kill_process w.process o))

  unfoldable pub look : Bool → List (Worker P) → O → Bool × (List (Worker P) × O)
  look late [] o = (false, ([], o))
  look late (w ∷ ws) o = looked late (is_running w o) w ws o (look late ws o)

module _ {O P : Type 0} where
  -- `ws` are the workers to stop, `ws'` what has become of them.
  unfoldable pub finish : Bool → List (Worker P) → World O P → List (Worker P) → O → World O P
  finish remove ws w ws' o = record w {
    system = o;
    workers = if remove then pop_all ws w.workers else write_back ws' w.workers;
  }

  -- What is left once the loop has ended.
  abbrev stopped_world :
      Bool
      → List (Worker P)
      → World O P
      → Option (List (Worker P) × O)
      → Outcome Error (Unit {0}) × World O P
  stopped_world remove ws w none = (raised out_of_fuel, w)
  stopped_world remove ws w (some (ws', o)) = (done tt, finish remove ws w ws' o)

module _ {O P : Type 0} (sys : System O P) (settings : Settings) where
  open sys use {now, sleep}

  unfoldable pub wait_for : ℕ → ℕ → List (Worker P) → O → Option (List (Worker P) × O)
  wait_for zero start ws o = none
  wait_for (suc n) start ws o =
      let (any_alive, (ws', o')) =
        look sys (leb (start + settings.worker_stop_timeout) (now o)) ws o in
      elim any_alive [ true ↦ wait_for n start ws' (sleep 5 o') | false ↦ some (ws', o') ]

  abbrev stop_fuel : List (Worker P) → ℕ
  stop_fuel ws = suc (settings.worker_stop_timeout + length ws)

  -- `stop_worker(ws, force, wait, remove_worker)`
  unfoldable pub stop_worker :
      List (Worker P) → Bool → Bool → Bool → Effect (World O P) Error (Unit {0})
  stop_worker ws force wait remove w =
      let (ws', o) = terminate_workers sys force ws w.system in
      elim wait [
        | false ↦ (done tt, finish remove ws w ws' o)
        | true ↦ stopped_world remove ws w (wait_for (stop_fuel ws) (now o) ws' o)
      ]

  -- `stop(force)`
  unfoldable pub stop : Bool → Effect (World O P) Error (Unit {0})
  stop force w =
      stop_worker (get_workers w.workers) force true true (record w { should_stop = true })
