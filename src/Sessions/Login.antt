-- ===== src/Sessions/Login.antt =====
-- `authenticate` of opsiconfd/session.py: users of the password file, users of an authentication
-- module, and the choice between these and hosts.
pub mod Granted
pub mod Hosts
pub mod Refused
use opsiconfd.Prelude.{
  ℕ, suc, ◌+◌, ◌-◌, String, List, [], ◌∷◌, ◌++◌, Option, none, some, Bool, true, false, not, ◌&&◌,
  ◌||◌, if◌then◌else◌, ◌==◌, leb, ltb, any,
}
use text.Mathlib.Text.{starts_with}
use opsiconfd.Prelude.Text.{truthy, eq_option, contains}
use opsiconfd.Prelude.Split.{strip_end, count_char}
use opsiconfd.Prelude.Dict.{Dict, lookup, insert}
use opsiconfd.Prelude.Effect.{
  Effect, Outcome, done, raised, pure, raise, change, raise_if, catch, ◌>>=◌, ◌>>◌,
}
use opsiconfd.Sessions.Data.{
  AuthenticationMethod, hardware_address, system_uuid, host_id, host_key, password_onetime,
  password_file, tls_certificate, totp, username_method, HostType, client, depotserver,
  configserver, Host, Session, set_username, set_user_groups, set_host, set_authenticated,
  set_is_admin, set_is_read_only, add_auth_method,
}
use opsiconfd.Sessions.World.{
  Error, authentication_error, runtime_error, permission_denied, value_error, World, Config, Env,
  Act, HostFilter, by_key, by_hardware_address, by_system_uuid, by_id, User, AuthModule,
}
use opsiconfd.Sessions.Store.{store, is_empty}
use opsiconfd.Sessions.Checks.{check_blocked, check_min_configed_version, check_admin_networks}
use opsiconfd.Sessions.HostLogin.{edit, authenticate_host}

module _ (env : Env) (config : Config) (peer_cert_cn : Option String) where
  -- `authenticate_user_passwd`
  pub authenticate_user_passwd : Act (Unit {0})
  authenticate_user_passwd (s, w) = elim (env.user_password s.username) [
    | none ↦ (raised authentication_error, (s, w))
    | some p ↦
        if eq_option s.password (some p)
        then (
          done tt,
          (
            add_auth_method password_file (
                add_auth_method username_method
                  (set_is_admin false (set_is_read_only true (set_authenticated true s)))),
            w,
          ),
        )
        else (raised authentication_error, (s, w))
  ]

  abbrev pub or_empty : Option String → String
  or_empty none = ""
  or_empty (some v) = v

  unfoldable pub check_user_certificate : Act (Unit {0})
  check_user_certificate (s, w) =
      if contains "user" config.client_cert_auth
      then if not (truthy peer_cert_cn) || not (eq_option peer_cert_cn (some s.username))
        then (raised authentication_error, (s, w))
        else (done tt, (add_auth_method tls_certificate s, w))
      else (done tt, (s, w))

  -- `authenticate_user_auth_module`, with the module.
  unfoldable pub check_module : AuthModule → Act AuthModule
  unfolding check_user_certificate
  check_module authm = do
    check_user_certificate
    λ st.
        raise_if (not (authm.accepts st.0.username (or_empty st.0.password))) authentication_error
          st
    edit (λ s. add_auth_method authm.method (add_auth_method username_method s))
    pure authm

  unfoldable pub authenticate_user_auth_module : Act AuthModule
  unfolding check_module
  authenticate_user_auth_module = elim env.auth_module [
    | none ↦ raise authentication_error
    | some authm ↦ check_module authm
  ]

  abbrev uses_otp : Bool
  uses_otp =
      config.multi_factor_auth == "totp_mandatory" || config.multi_factor_auth == "totp_optional"

  -- The one-time password that is given, from the header, or attached to the password.
  unfoldable pub find_otp : Option String → Option String → Act (Option String)
  find_otp mfa_otp header (s, w) =
      if not uses_otp || truthy mfa_otp
      then (done mfa_otp, (s, w))
      else if truthy header
      then (done header, (s, w))
      else elim (env.split_otp (or_empty s.password)) [
        | none ↦ (done header, (s, w))
        | some (password, otp) ↦ (done (some otp), (record s { password = some password }, w))
      ]

  -- A user that is not known yet is created with no secret.
  abbrev pub user_of : String → User
  user_of name = elim (env.find_user name) [
    | none ↦ record { otp_secret = none; mfa_active = false }
    | some user ↦ user
  ]

  pub check_otp : User → Option String → Act (Unit {0})
  check_otp user mfa_otp =
      if config.multi_factor_auth == "totp_mandatory"
        || (config.multi_factor_auth == "totp_optional" && user.mfa_active)
      then (do
        raise_if (not (truthy user.otp_secret)) authentication_error
        raise_if (not (truthy mfa_otp)) authentication_error
        raise_if (not (env.totp_accepts (or_empty user.otp_secret) (or_empty mfa_otp)))
            authentication_error
        edit (add_auth_method totp))
      else pure tt

  -- An exception of the authentication module; which one, is left open.
  abbrev pub found : {A : Type 0} → Option A → Act A
  found none = raise runtime_error
  found (some a) = pure a

  -- The session of a user that the module has accepted.
  unfoldable pub accept_user : AuthModule → Act (Unit {0})
  accept_user authm = do
    edit (set_authenticated true)
    groups ← λ st. found (authm.group_names st.0.username) st
    edit (set_user_groups groups)
    admin ← λ st. found (authm.user_is_admin st.0.username) st
    edit (set_is_admin admin)
    read_only ← λ st. found (authm.user_is_read_only st.0.username) st
    edit (set_is_read_only read_only)
    λ st. raise_if (not (env.updates_user st.0.username)) runtime_error st

  -- The branch for users of an authentication module.
  unfoldable pub authenticate_user : Option String → Option String → Act (Unit {0})
  unfolding find_otp authenticate_user_auth_module check_otp accept_user
  authenticate_user mfa_otp header = do
    otp ← find_otp mfa_otp header
    authm ← authenticate_user_auth_module
    λ st. check_otp (user_of st.0.username) otp st
    accept_user authm

  -- Whether a name is that of a host.
  abbrev pub names_host : String → Bool
  names_host name =
      name == ""
      || starts_with name "{hardware_address}"
      || starts_with name "{system_uuid}"
      || env.looks_like_host_id name
      || env.looks_like_hardware_address name
      || leb 2 (count_char b'.' name)

  abbrev lift : Outcome Error (Unit {0}) → Act (Unit {0})
  lift r st = (r, st)

  -- The choice between the three ways to log in.
  unfoldable pub log_in : Option String → Option String → Act (Unit {0})
  unfolding authenticate_host authenticate_user_passwd authenticate_user
  log_in mfa_otp header (s, w) =
      if s.username == config.monitoring_user
      then authenticate_user_passwd (s, w)
      else if names_host s.username
      then authenticate_host env config peer_cert_cn (s, w)
      else authenticate_user mfa_otp header (s, w)

  abbrev pub with_credentials : Option String → Option String → Session → Session
  with_credentials username password s = record (set_username (env.lower (or_empty username)) s) {
    password = some (or_empty password);
  }

  -- `_authenticate`, for a scope that has its session.
  unfoldable pub try_authenticate :
      Option String → Option String → Option String → Option String → Act (Unit {0})
  unfolding log_in
  try_authenticate username password mfa_otp header = do
    edit (set_authenticated false)
    λ st. lift (check_min_configed_version env config st.0.user_agent) st
    λ st. check_blocked env config st.0.client_addr st
    edit (with_credentials username password)
    λ st. raise_if (not (truthy st.0.password)) authentication_error st
    log_in mfa_otp header
    store env false
    λ st. raise_if (st.0.username == "" || not st.0.authenticated) permission_denied st
    edit (check_admin_networks env config)

  -- A failed attempt is added to the time series of the address.
  abbrev pub record_failure : Error → Act (Unit {0})
  record_failure authentication_error (s, w) = (
    raised authentication_error,
    (
      s,
      record w {
        failed_auth = (env.ip_address_to_redis_key s.client_addr, w.clock) ∷ w.failed_auth;
      },
    ),
  )
  record_failure e st = (raised e, st)

  -- `authenticate`
  unfoldable pub authenticate :
      Option String → Option String → Option String → Option String → Act (Unit {0})
  unfolding try_authenticate
  authenticate username password mfa_otp header =
      catch (try_authenticate username password mfa_otp header) record_failure
