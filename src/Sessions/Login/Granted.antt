-- ===== src/Sessions/Login/Granted.antt =====
-- Who is logged in after `authenticate`.
use opsiconfd.Prelude.{String, ◌≡◌, Option, false, not, ◌||◌, arith, ◌==◌}
use opsiconfd.Prelude.Text.{truthy}
use opsiconfd.Prelude.Effect.{Accepts, Accepts-after, Accepts-raise_if, Accepts-catch}
use opsiconfd.Sessions.Data.{
  Session, set_authenticated, set_is_admin, add_auth_method, set_modified,
}
use opsiconfd.Sessions.World.{Error, permission_denied, authentication_error, World, Config, Env}
use opsiconfd.Sessions.Checks.{check_admin_networks, check_min_configed_version, check_blocked}
use opsiconfd.Sessions.Store.{store}
use opsiconfd.Sessions.Login.{
  with_credentials, record_failure, log_in, try_authenticate, authenticate,
}

-- A session with a user that is logged in.
abbrev pub LoggedIn : Session × World → Type 0
LoggedIn st = (st.0.username == "" || not st.0.authenticated) ≡ false

module _ (env : Env) (config : Config) where
  check_admin_networks-LoggedIn :
      (s : Session) (w : World) → LoggedIn (s, w) → LoggedIn (check_admin_networks env config s, w)
  unfolding check_admin_networks set_is_admin add_auth_method set_modified
  check_admin_networks-LoggedIn s w h = ground arith

  try_authenticate-LoggedIn :
      (cn username password mfa_otp header : Option String) (st : Session × World)
      → Accepts LoggedIn (try_authenticate env config cn username password mfa_otp header st)
  unfolding try_authenticate
  try_authenticate-LoggedIn cn username password mfa_otp header (s, w) =
      let s' = set_authenticated false s in
      Accepts-after LoggedIn (check_min_configed_version env config s'.user_agent, (s', w)) _
        (λ _ t. Accepts-after LoggedIn (check_blocked env config t.0.client_addr t) _ (λ _ u.
          let v = with_credentials env config cn username password u.0 in
          Accepts-raise_if LoggedIn (not (truthy v.password)) authentication_error (v, u.1) _
            (λ _. Accepts-after LoggedIn (log_in env config cn mfa_otp header (v, u.1)) _ (λ _ v.
              Accepts-after LoggedIn (store env false v) _ (λ _ x.
                Accepts-raise_if LoggedIn (x.0.username == "" || not x.0.authenticated)
                  permission_denied x _
                  (λ granted. check_admin_networks-LoggedIn x.0 x.1 granted))))))

  record_failure-LoggedIn :
      (cn : Option String) (e : Error) (st : Session × World)
      → Accepts LoggedIn (record_failure env config cn e st)
  record_failure-LoggedIn cn authentication_error st = tt
  record_failure-LoggedIn cn permission_denied st = tt
  record_failure-LoggedIn cn _ st = tt

  pub authenticate-LoggedIn :
      (cn username password mfa_otp header : Option String) (st : Session × World)
      → Accepts LoggedIn (authenticate env config cn username password mfa_otp header st)
  unfolding authenticate
  authenticate-LoggedIn cn username password mfa_otp header st =
      Accepts-catch LoggedIn (try_authenticate env config cn username password mfa_otp header st)
        (record_failure env config cn)
        (try_authenticate-LoggedIn cn username password mfa_otp header st)
        (record_failure-LoggedIn cn)
