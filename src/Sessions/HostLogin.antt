-- ===== src/Sessions/HostLogin.antt =====
-- `authenticate_host` of opsiconfd/session.py: how a client or a server logs in with its key.
use opsiconfd.Prelude.{
  String, List, [], ◌∷◌, Option, none, some, Bool, true, false, not, ◌&&◌, ◌||◌, if◌then◌else◌,
}
use text.Mathlib.Text.{starts_with}
use opsiconfd.Prelude.Text.{truthy, eq_option, contains}
use opsiconfd.Prelude.Split.{strip_end}
use opsiconfd.Prelude.Dict.{insert}
use opsiconfd.Prelude.Effect.{done, raised, pure, raise, change, raise_if, ◌>>=◌, ◌>>◌}
use opsiconfd.Sessions.Data.{
  AuthenticationMethod, hardware_address, system_uuid, host_id, host_key, password_onetime,
  tls_certificate, client, depotserver, configserver, Host, Session, set_username, set_host,
  set_authenticated, set_is_admin, set_is_read_only, add_auth_method,
}
use opsiconfd.Sessions.World.{
  authentication_error, value_error, runtime_error, Config, Env, Act, HostFilter, by_key,
  by_hardware_address, by_system_uuid, by_id,
}

abbrev pub edit : (Session → Session) → Act (Unit {0})
edit f = change (λ st. (f st.0, st.1))

abbrev pub is_server : Host → Bool
is_server h = elim h.host_type [ client ↦ false | depotserver ↦ true | configserver ↦ true ]

module _ (env : Env) (config : Config) (peer_cert_cn : Option String) where
  -- How the host is looked up, and the method that this is; it may set the name of the user.
  unfoldable pub host_search : Act (HostFilter × Option AuthenticationMethod)
  host_search (s, w) =
      if config.allow_host_key_only_auth
      then (done (by_key s.password, none), (set_username "<host-key-only-auth>" s, w))
      else if starts_with s.username "{hardware_address}"
          || env.looks_like_hardware_address s.username
      then elim (env.force_hardware_address (env.without "{hardware_address}" s.username)) [
        | none ↦ (raised value_error, (s, w))
        | some a ↦ (done (by_hardware_address a, some hardware_address), (s, w))
      ]
      else if starts_with s.username "{system_uuid}"
      then elim (env.force_uuid (env.without "{system_uuid}" s.username)) [
        | none ↦ (raised value_error, (s, w))
        | some u ↦ (done (by_system_uuid u, some system_uuid), (s, w))
      ]
      else let name = strip_end b'.' s.username in
        (done (by_id name, some host_id), (set_username name s, w))

  -- The one host that the search finds.
  unfoldable pub only_host : List Host → Act Host
  only_host [] = raise authentication_error
  only_host (h ∷ []) = pure h
  only_host (h ∷ g ∷ hs) = raise authentication_error

  -- Whether a client certificate is asked of the host.
  abbrev pub wants_certificate : Host → Bool
  wants_certificate h =
      contains "depot" config.client_cert_auth && is_server h
      || contains "client" config.client_cert_auth && not (is_server h)

  unfoldable pub check_host_certificate : Host → Act (Unit {0})
  check_host_certificate h =
      if wants_certificate h && env.vpn_module_available
      then (do
        raise_if (not (truthy peer_cert_cn) || not (eq_option peer_cert_cn (some h.id)))
            authentication_error
        edit (add_auth_method tls_certificate))
      else pure tt

  abbrev pub without_onetime : Host → Host
  without_onetime h = record h { one_time_password = some "" }

  -- The password is the key of the host, or the onetime password of a client, which is used up.
  unfoldable pub check_host_password : Host → Act Host
  check_host_password h (s, w) =
      if truthy h.opsi_host_key && eq_option s.password h.opsi_host_key
      then (done h, (add_auth_method host_key s, w))
      else if not (is_server h)
          && truthy h.one_time_password
          && eq_option s.password h.one_time_password
      then (
        if env.updates_host (without_onetime h) none
            then done (without_onetime h)
            else raised runtime_error,
        (add_auth_method password_onetime s, w),
      )
      else (raised authentication_error, (s, w))

  -- The session of an authenticated host, then the address of a depot, or the update of a client in the
  -- database, which may raise an exception; which one, is left open.
  unfoldable pub accept_host : Host → Act (Unit {0})
  accept_host h (s, w) =
      let s' = set_username h.id (
        set_is_admin (is_server h)
          (set_is_read_only false (set_authenticated true (set_host env.same_host (some h) s)))) in
      (
        if is_server h || env.updates_host h (some s.client_addr)
            then done tt
            else raised runtime_error,
        (
          s',
          if is_server h
              then record w { depot_addresses = insert s.client_addr w.clock w.depot_addresses }
              else w,
        ),
      )

  abbrev pub add_optional : Option AuthenticationMethod → Session → Session
  add_optional none s = s
  add_optional (some m) s = add_auth_method m s

  -- `authenticate_host`, from the one host on.
  unfoldable pub confirm_host : Option AuthenticationMethod → Host → Act (Unit {0})
  unfolding check_host_certificate check_host_password accept_host
  confirm_host m h = do
    edit (add_optional m)
    raise_if (not (truthy h.opsi_host_key)) authentication_error
    check_host_certificate h
    h' ← check_host_password h
    accept_host h'

  -- `authenticate_host`
  unfoldable pub authenticate_host : Act (Unit {0})
  unfolding host_search only_host confirm_host
  authenticate_host = do
    search ← host_search
    h ← only_host (env.find_hosts search.0)
    confirm_host search.1 h
