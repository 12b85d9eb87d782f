-- ===== src/Workers/Samples.antt =====
-- A node with two workers, one of which ignores SIGTERM, and reports of another node.
use opsiconfd.Prelude.{
  ◌%◌, ◌||◌, ℕ, suc, ◌+◌, ◌≡◌, refl, [], ◌∷◌, length, map, none, some, Bool, true, false, ◌&&◌,
  if◌then◌else◌, eqb, ◌==◌, arith,
}
use opsiconfd.Prelude.Effect.{Ends}
use opsiconfd.Workers.Data.{
  put, pop, pop_all, same_id, current, next_num, top_num, new_worker, System, IsPosix, Settings,
  Worker, own, World, running, index_error, get_workers,
}
use opsiconfd.Workers.Placed.{others}
use opsiconfd.Workers.Stop.{
  stop, stop_worker, terminate_workers, terminate_worker, wait_for, look, is_running, finish,
}
use opsiconfd.Workers.Stop.Ends.{AllEnded, stop-ends}
use opsiconfd.Workers.Pool.{adjust_worker_count, restart_worker, start_worker, chosen, launch}
use opsiconfd.Workers.Pool.Adjust.{
  Spawns, adjust_worker_count-reaches, adjust_worker_count-overcrowded,
}
use opsiconfd.Workers.Reports.{
  Readers, update_worker_state, take_reports, take_report, take_items, take_item, from_dict,
}
use opsiconfd.Workers.Check.{
  turn, check_workers, check_worker, is_too_old, check_memory, restart_all,
}

pub record Machine : Type 0 where
  pub clock : ℕ
  pub next_pid : ℕ
  pub alive : ℕ → Bool

-- SIGTERM ends the processes with an even id.
abbrev machine : System Machine ℕ
machine = record {
  now = λ o. o.clock;
  sleep = λ d o. record o { clock = o.clock + d };
  spawn = λ o. (
    suc o.next_pid,
    record o {
      next_pid = suc o.next_pid;
      alive = λ q. if eqb (suc o.next_pid) q then true else o.alive q;
    },
  );
  pid = λ p. p;
  is_alive = λ p o. o.alive p;
  terminate =
      λ p o. record o { alive = λ q. if eqb p q && eqb (q % 2) 0 then false else o.alive q };
  kill = λ p o. record o { alive = λ q. if eqb p q then false else o.alive q };
  rss = λ n o. 1000;
  hangup = λ n o. o;
}

machine-IsPosix : IsPosix machine
machine-IsPosix = record {
  slept = λ d o. omega arith;
  kill_later = λ p o. omega arith;
  stays_ended = λ p d o e. e;
  stays_killed = λ p q o e. ground arith;
  killed = λ p o. ground arith;
}

machine-Spawns : Spawns machine
machine-Spawns o = ground arith

abbrev settings : Settings
settings = record {
  node = "config";
  count = 1;
  worker_stop_timeout = 20;
  worker_restart_time = 0;
  worker_restart_mem = 0;
  worker_restart_mem_interval = 36000;
  worker_restart_gap = 50;
  worker_check_interval = 100;
  restart_vanished_workers = true;
}

abbrev worker : ℕ → ℕ → Worker ℕ
worker n p = record {
  info = record {
    node_name = "config";
    worker_num = n;
    create_time = 5;
    worker_state = running;
    worker_pid = p;
  };
  process = some p;
  max_mem_exceeded_since = none;
}

abbrev start : World Machine ℕ
start = record {
  workers = own (worker 1 11) ∷ own (worker 2 12) ∷ [];
  has_socket = true;
  should_restart_workers = false;
  should_stop = false;
  reports =
      ("state:workers:depot:1", ("node_name", "depot") ∷ ("worker_num", "1") ∷ [])
      ∷ ("state:workers:depot:2", ("node_name", "depot") ∷ ("worker_num", "2") ∷ [])
      ∷ [];
  system = record { clock = 100; next_pid = 12; alive = λ q. eqb q 11 || eqb q 12 };
}

-- `int` of the numbers that stand in the reports.
abbrev readers : Readers
readers = record {
  read_int = λ s. if s == "1" then some 1 else if s == "2" then some 2 else none;
  read_float = λ s. none;
}

abbrev crowded : World Machine ℕ
crowded = update_worker_state readers settings start

stop-ends_example :
    Ends
      (λ _ t.
        (t.workers ≡ [])
        × AllEnded machine settings machine-IsPosix (some 11 ∷ some 12 ∷ []) t.system)
      (λ _ _. ⊥)
      (stop machine settings false start)
unfolding get_workers
stop-ends_example = stop-ends machine settings machine-IsPosix false start (refl, (refl, tt))

adjust_worker_count-reaches_example :
    Ends
      (λ _ u. (length u.workers ≡ 1) × (others u.workers ≡ []))
      (λ _ _. ⊥)
      (adjust_worker_count machine settings start)
adjust_worker_count-reaches_example =
    adjust_worker_count-reaches machine settings machine-IsPosix start machine-Spawns refl
      (refl, (refl, tt)) (omega arith)

-- The reports of the other node are more than the workers that are configured.
adjust_worker_count-overcrowded_example :
    Ends
      (λ _ _. ⊥)
      (λ e u. (e ≡ index_error) × (get_workers u.workers ≡ []))
      (adjust_worker_count machine settings crowded)
unfolding update_worker_state take_reports take_report from_dict take_items take_item put same_id
adjust_worker_count-overcrowded_example =
    adjust_worker_count-overcrowded machine settings machine-IsPosix crowded machine-Spawns refl
      (refl, (refl, (refl, (refl, tt)))) (omega arith)

-- The worker that ignores SIGTERM is killed at the timeout, and the loop ends half a second later.
stop_late : (stop machine settings false start).1.system.clock ≡ 125
unfolding stop stop_worker terminate_workers terminate_worker get_workers wait_for look is_running
    finish pop_all pop same_id
stop_late = refl

-- `run` waits for an empty dict after `stop`, but the entries of the other node stay.
stop_leaves : length (stop machine settings false crowded).1.workers ≡ 2
unfolding stop stop_worker terminate_workers terminate_worker get_workers wait_for look is_running
    finish pop_all pop same_id update_worker_state take_reports take_report from_dict take_items
    take_item put
stop_leaves = refl

-- A worker that has vanished is started again by the next turn.
revived : World Machine ℕ
revived =
    (turn machine settings readers
      (record start { reports = []; system = record start.system { alive = λ q. eqb q 12 } })).1

revived_runs : map (λ w. w.worker_pid) (get_workers revived.workers) ≡ 13 ∷ 12 ∷ []
unfolding revived turn check_workers check_worker is_too_old check_memory restart_all restart_worker
    current start_worker chosen launch new_worker next_num top_num get_workers is_running put
    same_id update_worker_state take_reports
revived_runs = refl
