-- ===== src/Workers/Data.antt =====
-- The attributes of `Worker` and `WorkerInfo` of opsiconfd/worker.py and of `WorkerManager` of
-- opsiconfd/manager.py. Times are tenths of seconds, memory is counted in bytes.
use opsiconfd.Prelude.{
  ℕ, suc, String, List, [], ◌∷◌, Option, none, some, Bool, true, false, ◌&&◌, if◌then◌else◌, ◌==◌,
  ◌+◌, ◌≤◌, ◌≡◌, eqb, max,
}
use opsiconfd.Prelude.Dict.{Dict}

pub data WorkerState : Type 0 where
  init starting running vanished stopping stopped : WorkerState

pub record WorkerInfo : Type 0 where
  pub node_name : String
  pub worker_num : ℕ
  pub create_time : ℕ
  pub worker_state : WorkerState
  pub worker_pid : ℕ

-- What the operating system and Python's `multiprocessing` do for the manager, with `O` the state of
-- the system and `P` a process object.
pub record System (O P : Type 0) : Type 0 where
  pub now : O → ℕ
  pub sleep : ℕ → O → O
  pub spawn : O → P × O
  pub pid : P → ℕ
  pub is_alive : P → O → Bool
  pub terminate : P → O → O
  pub kill : P → O → O
  pub rss : ℕ → O → ℕ
  pub hangup : ℕ → O → O

-- What stopping workers relies on: the clock does not go back, `sleep` sleeps, a process that has
-- ended stays so, and one that got SIGKILL has ended half a second later.
module _ {O P : Type 0} (sys : System O P) where
  open sys use {now, sleep, is_alive, kill}

  pub record IsPosix : Type 0 where
    pub slept : (d : ℕ) (o : O) → now o + d ≤ now (sleep d o)
    pub kill_later : (p : P) (o : O) → now o ≤ now (kill p o)
    pub stays_ended :
        (p : P) (d : ℕ) (o : O) → is_alive p o ≡ false → is_alive p (sleep d o) ≡ false
    pub stays_killed : (p q : P) (o : O) → is_alive p o ≡ false → is_alive p (kill q o) ≡ false
    pub killed : (p : P) (o : O) → is_alive p (sleep 5 (kill p o)) ≡ false

-- The configuration and the constants that `WorkerManager.__init__` sets.
pub record Settings : Type 0 where
  pub node : String
  pub count : ℕ
  pub worker_stop_timeout : ℕ
  pub worker_restart_time : ℕ
  pub worker_restart_mem : ℕ
  pub worker_restart_mem_interval : ℕ
  pub worker_restart_gap : ℕ
  pub worker_check_interval : ℕ
  pub restart_vanished_workers : Bool

pub data Error : Type 0 where
  socket_not_initialized server_process_failed index_error out_of_fuel : Error

-- `Worker`, whose process is none before it is started.
pub record Worker (P : Type 0) : Type 0 where
  pub info : WorkerInfo
  pub open info use *
  pub process : Option P
  pub max_mem_exceeded_since : Option ℕ

-- A value of the dict of workers: a worker of this node, or what another node tells of one.
pub data Entry (P : Type 0) : Type 0 where
  own : Worker P → Entry P
  other : WorkerInfo → Entry P

-- `worker.id` is the node name, a colon and the number: two ids are equal if both parts are.
unfoldable pub same_id : WorkerInfo → WorkerInfo → Bool
same_id a b = (a.node_name == b.node_name) && eqb a.worker_num b.worker_num

module _ {P : Type 0} where
  abbrev pub info_of : Entry P → WorkerInfo
  info_of (own w) = w.info
  info_of (other i) = i

  -- `isinstance(w, Worker)`
  unfoldable pub get_workers : List (Entry P) → List (Worker P)
  get_workers [] = []
  get_workers (own w ∷ es) = w ∷ get_workers es
  get_workers (other i ∷ es) = get_workers es

  -- `self.workers[worker.id] = worker`
  unfoldable pub put : Entry P → List (Entry P) → List (Entry P)
  put e [] = e ∷ []
  put e (f ∷ es) = if same_id (info_of f) (info_of e) then e ∷ es else f ∷ put e es

  -- `self.workers.pop(worker.id, None)`
  unfoldable pub pop : WorkerInfo → List (Entry P) → List (Entry P)
  pop i [] = []
  pop i (e ∷ es) = if same_id (info_of e) i then es else e ∷ pop i es

  -- `self.workers.pop(worker.id, None)` for each of the workers.
  unfoldable pub pop_all : List (Worker P) → List (Entry P) → List (Entry P)
  pop_all [] es = es
  pop_all (w ∷ ws) es = pop_all ws (pop w.info es)

  -- `worker.id in self.workers`
  unfoldable pub has : WorkerInfo → List (Entry P) → Bool
  has i [] = false
  has i (e ∷ es) = if same_id (info_of e) i then true else has i es

  -- An entry holds the worker object: what is changed of the object is changed there.
  unfoldable pub write_back : List (Worker P) → List (Entry P) → List (Entry P)
  write_back [] es = es
  write_back (w ∷ ws) es = write_back ws (if has w.info es then put (own w) es else es)

  -- `xs[-1]`
  unfoldable pub last : List (Worker P) → Option (Worker P)
  last [] = none
  last (w ∷ []) = some w
  last (w ∷ v ∷ ws) = last (v ∷ ws)

  -- `get_worker`: the first worker with a process id.
  unfoldable pub get_worker : ℕ → List (Worker P) → Option (Worker P)
  get_worker n [] = none
  get_worker n (w ∷ ws) = if eqb w.worker_pid n then some w else get_worker n ws

  -- The object of a worker as the dict has it.
  unfoldable pub current : Worker P → List (Entry P) → Worker P
  current w [] = w
  current w (own v ∷ es) = if same_id v.info w.info then v else current w es
  current w (other i ∷ es) = current w es

  -- The worker numbers are sorted, and the last one is taken.
  unfoldable pub top_num : List (Worker P) → ℕ
  top_num [] = 0
  top_num (w ∷ ws) = max w.worker_num (top_num ws)

  unfoldable pub next_num : List (Worker P) → ℕ
  next_num [] = 1
  next_num (w ∷ ws) = suc (top_num (w ∷ ws))

  -- `Worker(node_name, worker_num)`
  unfoldable pub new_worker : String → ℕ → ℕ → Worker P
  new_worker node n time = record {
    info = record {
      node_name = node;
      worker_num = n;
      create_time = time;
      worker_state = init;
      worker_pid = 0;
    };
    process = none;
    max_mem_exceeded_since = none;
  }

  abbrev pub set_state : WorkerState → Worker P → Worker P
  set_state s w = record w { info = record w.info { worker_state = s } }

  abbrev pub set_pid : ℕ → Worker P → Worker P
  set_pid n w = record w { info = record w.info { worker_pid = n } }

-- The manager with redis, which keeps what each worker of any node tells of itself under a key of its
-- own, and the system that it runs on.
pub record World (O P : Type 0) : Type 0 where
  pub workers : List (Entry P)
  pub has_socket : Bool
  pub should_restart_workers : Bool
  pub should_stop : Bool
  pub reports : List (String × Dict String)
  pub system : O
