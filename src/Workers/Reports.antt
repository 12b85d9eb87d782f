-- ===== src/Workers/Reports.antt =====
-- `WorkerInfo.from_dict` of opsiconfd/worker.py and `update_worker_state` of opsiconfd/manager.py: the
-- manager reads from redis what the workers of all nodes tell of themselves. Numbers are not negative.
use opsiconfd.Prelude.{ℕ, String, List, [], ◌∷◌, Option, none, some, if◌then◌else◌, ◌==◌}
use mathlib.Core.Option
use opsiconfd.Prelude.Dict.{Dict, remove}
use opsiconfd.Workers.Data.{WorkerInfo, init, Settings, other, World, put, has}

-- `int(val)` and `float(val)`, which raise where they are none.
pub record Readers : Type 0 where
  pub read_int : String → Option ℕ
  pub read_float : String → Option ℕ

-- The arguments that `from_dict` has collected.
pub record Kwargs : Type 0 where
  pub node_name : Option String
  pub worker_num : Option ℕ
  pub create_time : Option ℕ
  pub pid : Option ℕ

module _ (readers : Readers) where
  open readers use {read_int, read_float}

  -- One item of the dict.
  unfoldable pub take_item : String → String → Kwargs → Option Kwargs
  take_item key val k =
      if key == "node_name"
      then some (record k { node_name = some val })
      else if key == "worker_num"
      then Option.map (λ n. record k { worker_num = some n }) (read_int val)
      else if key == "pid"
      then Option.map (λ n. record k { pid = some n }) (read_int val)
      else if key == "create_time"
      then Option.map (λ n. record k { create_time = some n }) (read_float val)
      else some k

  unfoldable pub take_items : Dict String → Kwargs → Option Kwargs
  take_items [] k = some k
  take_items ((key, val) ∷ d) k = elim (take_item key val k) [
    | none ↦ none
    | some k' ↦ take_items d k'
  ]

  abbrev or_zero : Option ℕ → ℕ
  or_zero none = 0
  or_zero (some n) = n

  -- `WorkerInfo(**kwargs)`, which needs the name of the node and the number.
  abbrev worker_info : Kwargs → Option WorkerInfo
  worker_info k = elim k.node_name [
    | none ↦ none
    | some node ↦
        Option.map
          (λ n. record {
            node_name = node;
            worker_num = n;
            create_time = or_zero k.create_time;
            worker_state = init;
            worker_pid = or_zero k.pid;
          })
          k.worker_num
  ]

  -- `WorkerInfo.from_dict`: none is any exception.
  unfoldable pub from_dict : Dict String → Option WorkerInfo
  from_dict d =
      elim (take_items d
        (record { node_name = none; worker_num = none; create_time = none; pid = none })) [
          | none ↦ none
          | some k ↦ worker_info k
        ]

  module _ {O P : Type 0} (settings : Settings) where
    -- What is read from one key: a report of a worker of this node that is not there any more is
    -- deleted, and so is one that cannot be read.
    unfoldable pub take_report : String → Dict String → World O P → World O P
    take_report key d t = elim (from_dict d) [
      | none ↦ record t { reports = remove key t.reports }
      | some i ↦
          if i.node_name == settings.node
          then (if has i t.workers then t else record t { reports = remove key t.reports })
          else record t { workers = put (other i) t.workers }
    ]

    unfoldable pub take_reports : List (String × Dict String) → World O P → World O P
    take_reports [] t = t
    take_reports ((key, d) ∷ rs) t = take_reports rs (take_report key d t)

    unfoldable pub update_worker_state : World O P → World O P
    update_worker_state t = take_reports t.reports t
