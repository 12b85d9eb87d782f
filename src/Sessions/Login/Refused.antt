-- ===== src/Sessions/Login/Refused.antt =====
-- What a failed `authenticate` leaves.
use opsiconfd.Prelude.{
  ℕ, suc, subst, ◌∙◌, String, List, ◌∷◌, ◌≡◌, refl, Option, none, some, Bool, true, false, not,
  ◌&&◌, ◌||◌, arith, if◌then◌else◌, ◌==◌, Bool-cases, inl, inr,
}
use opsiconfd.Prelude.Text.{truthy}
use opsiconfd.Prelude.Effect.{
  Outcome, done, raised, raise, raise_if, pure, handled, Ends, Ends-bind, Ends-imp, raise_if-Ends,
}
use opsiconfd.Sessions.Data.{
  AuthenticationMethod, Session, tls_certificate, totp, username_method, set_modified,
  add_auth_method, set_authenticated, set_user_groups, set_is_admin, set_is_read_only,
}
use opsiconfd.Sessions.World.{
  Error, authentication_error, runtime_error, permission_denied, assertion_error, is_expired, World,
  Config, Env, Act, AuthModule, User,
}
use opsiconfd.Sessions.Store.{is_empty, key_of, own_key, stamped, store}
use opsiconfd.Sessions.Checks.{check_min_configed_version, check_blocked}
use opsiconfd.Sessions.Login.Hosts.{
  set_username-sets, set_authenticated-sets, authenticate_host-LetIn, Refused, LetIn, NotLetIn,
}
use opsiconfd.Sessions.Login.{
  found, accept_user, find_otp, check_user_certificate, authenticate_user_auth_module, check_otp,
  check_module, authenticate_user, authenticate_user_passwd, log_in, names_host, user_of, or_empty,
  with_credentials, try_authenticate, record_failure, authenticate,
}
use opsiconfd.Sessions.HostLogin.{authenticate_host}

abbrev IsOut : Session × World → Type 0
IsOut st = st.0.authenticated ≡ false

abbrev pub Anyway : {A : Type 0} → A → Session × World → Type 0
Anyway _ _ = Unit

module _ (env : Env) (config : Config) (cn : Option String) where
  authenticate_user_passwd-Refused :
      (s : Session) (w : World)
      → IsOut (s, w)
      → Ends Anyway Refused (authenticate_user_passwd env config cn (s, w))
  unfolding authenticate_user_passwd
  authenticate_user_passwd-Refused s w h = ground arith

  find_otp-IsOut :
      (mfa_otp header : Option String) (st : Session × World)
      → IsOut st
      → Ends (λ _. IsOut) Refused (find_otp env config cn mfa_otp header st)
  unfolding find_otp
  find_otp-IsOut mfa_otp header (s, w) h = ground arith

  add_auth_method-authenticated :
      (m : AuthenticationMethod) (s : Session)
      → (add_auth_method m s).authenticated ≡ s.authenticated
  unfolding add_auth_method set_modified
  add_auth_method-authenticated m s = ground arith

  check_user_certificate-IsOut :
      (st : Session × World)
      → IsOut st
      → Ends (λ _. IsOut) Refused (check_user_certificate env config cn st)
  unfolding check_user_certificate
  check_user_certificate-IsOut (s, w) h =
      ground (arith, add_auth_method-authenticated tls_certificate s)

  check_module-IsOut :
      (authm : AuthModule) (st : Session × World)
      → IsOut st
      → Ends (λ _. IsOut) Refused (check_module env config cn authm st)
  unfolding check_module
  check_module-IsOut authm st h =
      Ends-bind (λ _. IsOut) (λ _. IsOut) Refused (check_user_certificate env config cn st) _
        (check_user_certificate-IsOut st h)
        (λ _ t out.
          let s = add_auth_method username_method t.0 in
          ground (
            arith,
            add_auth_method-authenticated username_method t.0,
            add_auth_method-authenticated authm.method s,
          ))

  authenticate_user_auth_module-IsOut :
      (st : Session × World)
      → IsOut st
      → Ends (λ _. IsOut) Refused (authenticate_user_auth_module env config cn st)
  unfolding authenticate_user_auth_module
  authenticate_user_auth_module-IsOut st h = go env.auth_module
    where
      go :
          (m : Option AuthModule)
          → Ends {A = AuthModule}
              (λ _. IsOut)
              Refused
              ((elim m as (λ _. Act AuthModule) [
                | none ↦ raise authentication_error
                | some authm ↦ check_module env config cn authm
              ])
                st)
      go none = h
      go (some authm) = check_module-IsOut authm st h

  check_otp-IsOut :
      (user : User) (otp : Option String) (st : Session × World)
      → IsOut st
      → Ends (λ _. IsOut) Refused (check_otp env config cn user otp st)
  unfolding check_otp
  check_otp-IsOut user otp st h = ground (arith, add_auth_method-authenticated totp st.0)

  abbrev Tried : Error → Session × World → Type 0
  Tried e st = e ≡ authentication_error → IsOut st

  Refused-Tried :
      {A : Type 0} (P : A → Session × World → Type 0) (r : Outcome Error A × (Session × World))
      → Ends P Refused r
      → Ends P Tried r
  Refused-Tried P (done u, st) h = h
  Refused-Tried P (raised e, st) h = λ _. h

  found-Tried :
      {A : Type 0} (o : Option A) (st : Session × World)
      → Ends Anyway Tried (found env config cn o st)
  found-Tried none st = λ e. cc
  found-Tried (some a) st = tt

  accept_user-Tried :
      (authm : AuthModule) (st : Session × World)
      → Ends Anyway Tried (accept_user env config cn authm st)
  unfolding accept_user
  accept_user-Tried authm (s, w) =
      let s₁ = set_authenticated true s in
      Ends-bind Anyway Anyway Tried (found env config cn (authm.group_names s₁.username) (s₁, w)) _
        (found-Tried (authm.group_names s₁.username) (s₁, w))
        (λ groups t _.
          let s₂ = set_user_groups groups t.0 in
          Ends-bind Anyway Anyway Tried
            (found env config cn (authm.user_is_admin s₂.username) (s₂, t.1)) _
            (found-Tried (authm.user_is_admin s₂.username) (s₂, t.1))
            (λ admin u _.
              let s₃ = set_is_admin admin u.0 in
              Ends-bind Anyway Anyway Tried
                (found env config cn (authm.user_is_read_only s₃.username) (s₃, u.1)) _
                (found-Tried (authm.user_is_read_only s₃.username) (s₃, u.1))
                (λ read_only v _.
                  let s₄ = set_is_read_only read_only v.0 in
                  raise_if-Ends (Anyway tt) Tried (not (env.updates_user s₄.username)) runtime_error
                    (s₄, v.1) (λ _. tt) (λ e. cc))))

  authenticate_user-Tried :
      (mfa_otp header : Option String) (st : Session × World)
      → IsOut st
      → Ends Anyway Tried (authenticate_user env config cn mfa_otp header st)
  unfolding authenticate_user
  authenticate_user-Tried mfa_otp header st h =
      Ends-bind (λ _. IsOut) Anyway Tried (find_otp env config cn mfa_otp header st) _
        (Refused-Tried (λ _. IsOut) _ (find_otp-IsOut mfa_otp header st h))
        (λ otp t out.
          Ends-bind (λ _. IsOut) Anyway Tried (authenticate_user_auth_module env config cn t) _
            (Refused-Tried (λ _. IsOut) _ (authenticate_user_auth_module-IsOut t out))
            (λ authm u out'.
              Ends-bind (λ _. IsOut) Anyway Tried
                (check_otp env config cn (user_of env config cn u.0.username) otp u) _
                (Refused-Tried (λ _. IsOut) _
                  (check_otp-IsOut (user_of env config cn u.0.username) otp u out'))
                (λ _ v _. accept_user-Tried authm v)))

  not_let_in :
      (password : Option String) (e : Error) (st : Session × World)
      → NotLetIn env config cn password e st
      → Tried e st
  not_let_in password e st (inl out) = λ _. out
  not_let_in password e st (inr late) = λ same. absurd (late.0 same)

  log_in-Tried :
      (mfa_otp header : Option String) (st : Session × World)
      → IsOut st
      → Ends Anyway Tried (log_in env config cn mfa_otp header st)
  unfolding log_in
  log_in-Tried mfa_otp header (s, w) h = elim (Bool-cases (s.username == config.monitoring_user)) [
    | inl monitoring ↦
        rw monitoring (Refused-Tried Anyway _ (authenticate_user_passwd-Refused s w h))
    | inr other ↦ rw other (elim (Bool-cases (names_host env config cn s.username)) [
      | inl host ↦ rw host (
          Ends-imp (λ _. LetIn env config cn s.password) Anyway (NotLetIn env config cn s.password)
            Tried (authenticate_host env config cn (s, w))
            (authenticate_host-LetIn env config cn s w h) (λ _ _ _. tt) (not_let_in s.password))
      | inr user ↦ rw user (authenticate_user-Tried mfa_otp header (s, w) h)
    ])
  ]

  -- What a failed log in leaves: no one is logged in, and the failure is noted for the address.
  abbrev IsFailure : Error → Session × World → Type 0
  IsFailure e st =
      e ≡ authentication_error
      → (st.0.authenticated ≡ false)
        × (earlier : List (String × ℕ)) × (st.1.failed_auth
            ≡ (env.ip_address_to_redis_key st.0.client_addr, st.1.clock) ∷ earlier)

  own_key-Tried : (st : Session × World) → Ends Anyway Tried (own_key env st)
  unfolding own_key
  own_key-Tried (s, w) = go s.session_id
    where
      go :
          (id : Option String)
          → Ends {A = String} Anyway Tried (elim id [
            | none ↦ raise assertion_error (s, w)
            | some id ↦
                if id == ""
                then raise assertion_error (s, w)
                else pure (key_of env s.client_addr id) (s, w)
          ])
      go none = λ e. cc
      go (some id) = elim (Bool-cases (id == "")) [
        | inl unnamed ↦ rw unnamed (λ e. cc)
        | inr named ↦ rw named tt
      ]

  store-Tried : (only : Bool) (st : Session × World) → Ends Anyway Tried (store env only st)
  unfolding store
  store-Tried only (s, w) =
      elim (Bool-cases (
        s.deleted
        || is_expired w.clock s
        || not s.persistent
        || (only && is_empty s.modifications))) [
          | inl skipped ↦ rw skipped tt
          | inr written ↦ rw written (
              Ends-bind Anyway Anyway Tried
                (own_key env (stamped env s w, record w { drawn = suc w.drawn })) _
                (own_key-Tried (stamped env s w, record w { drawn = suc w.drawn })) (λ _ _ _. tt))
        ]

  outcome-Tried :
      (r : Outcome Error (Unit {0})) (st : Session × World)
      → IsOut st
      → Ends (λ _. IsOut) Tried (r, st)
  outcome-Tried (done u) st h = h
  outcome-Tried (raised e) st h = λ _. h

  check_blocked-IsOut :
      (addr : String) (st : Session × World)
      → IsOut st
      → Ends (λ _. IsOut) Tried (check_blocked env config addr st)
  unfolding check_blocked
  check_blocked-IsOut addr (s, w) h = ground arith

  try_authenticate-Tried :
      (username password mfa_otp header : Option String) (st : Session × World)
      → Ends Anyway Tried (try_authenticate env config cn username password mfa_otp header st)
  unfolding try_authenticate
  try_authenticate-Tried username password mfa_otp header (s, w) =
      let s' = set_authenticated false s in
      Ends-bind (λ _. IsOut) Anyway Tried
        (check_min_configed_version env config s'.user_agent, (s', w)) _
        (outcome-Tried (check_min_configed_version env config s'.user_agent) (s', w)
          (set_authenticated-sets false s))
        (λ _ t out.
          Ends-bind (λ _. IsOut) Anyway Tried (check_blocked env config t.0.client_addr t) _
            (check_blocked-IsOut t.0.client_addr t out)
            (λ _ u out'.
              let v = with_credentials env config cn username password u.0 in
              let entered =
                (set_username-sets (env.lower (or_empty env config cn username)) u.0).1 in
              Ends-bind (λ _. IsOut) Anyway Tried
                (raise_if (not (truthy v.password)) authentication_error (v, u.1)) _
                (raise_if-Ends IsOut Tried (not (truthy v.password)) authentication_error (v, u.1)
                  (λ _. entered ∙ out') (λ _. entered ∙ out'))
                (λ _ x out''.
                  Ends-bind Anyway Anyway Tried (log_in env config cn mfa_otp header x) _
                    (log_in-Tried mfa_otp header x out'')
                    (λ _ y _.
                      Ends-bind Anyway Anyway Tried (store env false y) _ (store-Tried false y)
                        (λ _ z _.
                          Ends-bind Anyway Anyway Tried
                            (raise_if (z.0.username == "" || not z.0.authenticated)
                              permission_denied z)
                            _
                            (raise_if-Ends (Anyway tt) Tried
                              (z.0.username == "" || not z.0.authenticated) permission_denied z
                              (λ _. tt) (λ e. cc))
                            (λ _ _ _. tt))))))

  record_failure-IsFailure :
      (r : Outcome Error (Unit {0}) × (Session × World))
      → Ends Anyway Tried r
      → Ends Anyway IsFailure (handled r (record_failure env config cn))
  record_failure-IsFailure (done u, st) h = tt
  record_failure-IsFailure (raised authentication_error, (s, w)) h =
      λ e. (h refl, w.failed_auth, refl)
  record_failure-IsFailure (raised permission_denied, (s, w)) h = λ e. cc
  record_failure-IsFailure (raised e, (s, w)) h = λ e. cc

  -- Whatever the session was before: if `authenticate` raises an authentication error, the session is
  -- not authenticated, and the failed attempt is the last one that is noted, for the key of the
  -- session's address and the time of the attempt.
  pub authenticate-refused :
      (username password mfa_otp header : Option String) (st st' : Session × World)
      → authenticate env config cn username password mfa_otp header st
        ≡ (raised authentication_error, st')
      → (st'.0.authenticated ≡ false)
        × (earlier : List (String × ℕ)) × (st'.1.failed_auth
            ≡ (env.ip_address_to_redis_key st'.0.client_addr, st'.1.clock) ∷ earlier)
  unfolding authenticate
  authenticate-refused username password mfa_otp header st st' e =
      subst (Ends Anyway IsFailure) e
        (record_failure-IsFailure
          (try_authenticate env config cn username password mfa_otp header st)
          (try_authenticate-Tried username password mfa_otp header st))
        refl
