-- ===== src/Sessions/Checks/Blocked.antt =====
-- What `check_blocked` and `check_admin_networks` leave.
use opsiconfd.Prelude.{
  ℕ, ◌+◌, ◌-◌, ◌<◌, String, List, [], ◌∷◌, ◌≡◌, refl, true, false, arith, leb, any, any-append,
  eq_refl,
}
use opsiconfd.Prelude.Dict.{lookup, lookup-insert}
use opsiconfd.Prelude.Text.{contains}
use opsiconfd.Prelude.Effect.{raised}
use opsiconfd.Sessions.Data.{
  Session, Attribute, user_groups, is_attribute, is_modified, set_modified, set_is_admin,
}
use opsiconfd.Sessions.World.{connection_refused, World, Config, Env}
use opsiconfd.Sessions.Store.{is_empty, write_row, row_of, exists}
use opsiconfd.Sessions.Store.Synced.{write_row-unmodified}
use opsiconfd.Sessions.Checks.{
  is_blocked, times_of, last_count, check_blocked, remove_text, check_admin_networks,
}

module _ (env : Env) (config : Config) where
  abbrev failures : String → World → ℕ
  failures addr w = last_count (
      env.bucket_counts (times_of (env.ip_address_to_redis_key addr) w.failed_auth)
        (w.clock - config.auth_failures_interval) w.clock config.auth_failures_interval)

  -- From the check that counts too many failures on, an address is refused, and nothing changes, for
  -- as long as clients are blocked.
  pub check_blocked-refuses :
      (addr : String) (s : Session) (w : World)
      → is_blocked (env.ip_address_to_redis_key addr) w ≡ false
      → leb config.max_auth_failures (failures addr w) ≡ true
      → (later : ℕ) → later < w.clock + config.client_block_time
      → (s' : Session)
      → let w' : World = record (check_blocked env config addr (s, w)).1.1 { clock = later } in
        check_blocked env config addr (s', w') ≡ (raised connection_refused, (s', w'))
  unfolding check_blocked is_blocked
  check_blocked-refuses addr s w free many later before s' = ground (
    arith,
    lookup-insert (env.ip_address_to_redis_key addr) (env.ip_address_to_redis_key addr)
        (w.clock + config.client_block_time) w.blocked,
    eq_refl (env.ip_address_to_redis_key addr),
  )

  contains-remove_text :
      (k : String) (l : List String) → contains k (remove_text env config k l) ≡ false
  unfolding remove_text contains
  contains-remove_text k [] = refl
  contains-remove_text k (j ∷ js) = ground (arith, contains-remove_text k js)

  -- An administrator outside the administrators' networks is no administrator after the check and is
  -- not in their group. If the groups were stored before, storing the changes leaves the field of the
  -- groups in redis as it was: with the group.
  pub check_admin_networks-unnoticed :
      (s : Session) (w : World) (key : String)
      → s.is_admin ≡ true
      → is_empty config.admin_networks ≡ false
      → any (env.ip_address_in_network s.client_addr) config.admin_networks ≡ false
      → is_modified user_groups s.modifications ≡ false
      → exists key w ≡ true
      → let s' = check_admin_networks env config s in
        (s'.is_admin ≡ false)
        × (contains config.admin_group s'.user_groups ≡ false)
        × (lookup "user_groups" (row_of key (write_row env true key s' w).1)
            ≡ lookup "user_groups" (row_of key w))
  unfolding check_admin_networks set_is_admin set_modified
  check_admin_networks-unnoticed s w key admin networks outside stored there = (
    ground arith,
    ground (arith, contains-remove_text config.admin_group s.user_groups),
    write_row-unmodified env key (check_admin_networks env config s) w user_groups there (
        ground
          (arith, any-append (is_attribute user_groups) s.modifications (Attribute.is_admin ∷ []))),
  )
