-- ===== src/Sessions/Checks.antt =====
-- The checks of addresses and agents in opsiconfd/session.py: `check_network`, `check_blocked`,
-- `check_min_configed_version` and `check_admin_networks`.
pub mod Blocked
use opsiconfd.Prelude.{
  ℕ, ◌+◌, ◌-◌, ◌*◌, String, List, [], ◌∷◌, ◌++◌, Option, none, some, Bool, true, false, not, ◌&&◌,
  ◌||◌, if◌then◌else◌, ◌==◌, leb, ltb, any,
}
use text.Mathlib.Text.{find?}
use opsiconfd.Prelude.Text.{truthy, contains}
use opsiconfd.Prelude.Dict.{Dict, lookup, insert}
use opsiconfd.Prelude.Effect.{
  Effect, Outcome, done, raised, pure, raise, change, raise_if, ◌>>=◌, ◌>>◌,
}
use opsiconfd.Sessions.Data.{Session, admin_networks, set_is_admin, add_auth_method}
use opsiconfd.Sessions.World.{Error, connection_refused, World, Config, Env, Act}
use opsiconfd.Sessions.Store.{is_empty}

-- The last time at which `setex` keeps the key is before `until`. Of the key of an address only the part
-- behind the prefix counts here and below.
unfoldable pub is_blocked : String → World → Bool
is_blocked key w = elim (lookup key w.blocked) [ none ↦ false | some until ↦ ltb w.clock until ]

-- The times of the failed attempts from the address with a key.
unfoldable pub times_of : String → List (String × ℕ) → List ℕ
times_of key [] = []
times_of key ((k, t) ∷ failed) = if k == key then t ∷ times_of key failed else times_of key failed

-- `int(data[-1][1])`, and 0 where the answer is empty.
unfoldable pub last_count : List ℕ → ℕ
last_count [] = 0
last_count (n ∷ []) = n
last_count (n ∷ m ∷ ns) = last_count (m ∷ ns)

-- `s in agent`
abbrev is_part : String → String → Bool
is_part s agent = elim (find? agent s) [ none ↦ false | some i ↦ true ]

module _ (env : Env) (config : Config) where
  -- `check_network`
  unfoldable pub check_network : String → Outcome Error (Unit {0})
  check_network addr =
      if is_empty config.networks || any (env.ip_address_in_network addr) config.networks
      then done tt
      else raised connection_refused

  -- `check_blocked`
  unfoldable pub check_blocked : String → Act (Unit {0})
  unfolding is_blocked last_count times_of
  check_blocked addr (s, w) =
      let key = env.ip_address_to_redis_key addr in
      if is_blocked key w
      then (raised connection_refused, (s, w))
      else if leb config.max_auth_failures (
          last_count (
            env.bucket_counts (times_of key w.failed_auth) (w.clock - config.auth_failures_interval)
              w.clock config.auth_failures_interval))
      then (
        done tt,
        (s, record w { blocked = insert key (w.clock + config.client_block_time) w.blocked }),
      )
      else (done tt, (s, w))

  -- `check_min_configed_version`: the version is the last word of the agent.
  unfoldable pub check_min_configed_version : String → Outcome Error (Unit {0})
  check_min_configed_version agent = elim config.min_configed_version [
    | none ↦ done tt
    | some least ↦
        if agent == "" || not (is_part "opsi config editor" agent)
        then done tt
        else elim (env.configed_version agent) [
          | none ↦ raised connection_refused
          | some v ↦ if env.version_lt v least then raised connection_refused else done tt
        ]
  ]

  pub remove_text : String → List String → List String
  remove_text k [] = []
  remove_text k (j ∷ js) = if k == j then remove_text k js else j ∷ remove_text k js

  -- `check_admin_networks`: the set of groups is changed in place, past its setter.
  unfoldable pub check_admin_networks : Session → Session
  unfolding remove_text
  check_admin_networks s =
      if not s.is_admin || is_empty config.admin_networks
      then s
      else if any (env.ip_address_in_network s.client_addr) config.admin_networks
      then add_auth_method admin_networks s
      else let s' = set_is_admin false s in
        record s' { user_groups = remove_text config.admin_group s'.user_groups }
