-- ===== src/Sessions/Login/Hosts.antt =====
-- Which hosts `authenticate_host` lets in.
use opsiconfd.Prelude.{
  String, List, [], ◌∷◌, ◌≡◌, refl, ◌∙◌, Option, none, some, Bool, true, false, not, ◌&&◌, ◌||◌,
  arith, Bool-cases, inl, inr, eq_iff, ◌≢◌, ◌⊎◌, if◌then◌else◌,
}
use opsiconfd.Prelude.Text.{truthy, eq_option}
use opsiconfd.Prelude.Split.{strip_end}
use text.Mathlib.Text.{starts_with}
use opsiconfd.Prelude.Effect.{
  done, raised, raise_if, Outcome, Ends, Ends-bind, Ends-imp, raise_if-Ends,
}
use opsiconfd.Sessions.Data.{
  AuthenticationMethod, hardware_address, system_uuid, password_onetime, tls_certificate, Host,
  Session, set_modified, set_username, add_auth_method, set_authenticated, set_is_admin,
  set_is_read_only, set_host,
}
use opsiconfd.Sessions.World.{
  Error, authentication_error, value_error, runtime_error, by_hardware_address, by_system_uuid,
  World, Config, Env, HostFilter,
}
use opsiconfd.Sessions.HostLogin.{
  is_server, host_search, only_host, check_host_certificate, check_host_password, accept_host,
  without_onetime, add_optional, confirm_host, authenticate_host, wants_certificate,
}

-- The password is the host's key, or a client's onetime password; neither may be empty.
abbrev pub FitsHost : Option String → Host → Type 0
FitsHost password h =
    (truthy h.opsi_host_key ≡ true)
    × ((eq_option password h.opsi_host_key
          || (not (is_server h)
              && truthy h.one_time_password
              && eq_option password h.one_time_password))
        ≡ true)

-- The session of a host.
abbrev pub IsSessionOf : Host → Session → Type 0
IsSessionOf h s = (s.username ≡ h.id) × (s.authenticated ≡ true) × (s.is_admin ≡ is_server h)

-- A session that is not authenticated.
abbrev pub Refused : Error → Session × World → Type 0
Refused e st = st.0.authenticated ≡ false

module _ (env : Env) (config : Config) (cn : Option String) (password : Option String) where
  -- The session before the host has proved its identity.
  abbrev Waits : Session × World → Type 0
  Waits st = (st.0.password ≡ password) × (st.0.authenticated ≡ false)

  set_username-Waits :
      (v : String) (s : Session) (w : World) → Waits (s, w) → Waits (set_username v s, w)
  unfolding set_username set_modified
  set_username-Waits v s w h = ground arith

  add_auth_method-Waits :
      (m : AuthenticationMethod) (s : Session) (w : World)
      → Waits (s, w)
      → Waits (add_auth_method m s, w)
  unfolding add_auth_method set_modified
  add_auth_method-Waits m s w h = ground arith

  host_search-Waits :
      (s : Session) (w : World)
      → Waits (s, w)
      → Ends (λ _. Waits) Refused (host_search env config cn (s, w))
  unfolding host_search
  host_search-Waits s w h = elim (Bool-cases config.allow_host_key_only_auth) [
    | inl by_password ↦ rw by_password (set_username-Waits "<host-key-only-auth>" s w h)
    | inr by_name ↦
        rw by_name
          (elim (Bool-cases (
            starts_with s.username "{hardware_address}"
            || env.looks_like_hardware_address s.username)) [
              | inl address ↦ rw address (
                  by_address
                    (env.force_hardware_address (env.without "{hardware_address}" s.username)))
              | inr no_address ↦
                  rw no_address (elim (Bool-cases (starts_with s.username "{system_uuid}")) [
                    | inl uuid ↦
                        rw uuid (by_uuid (env.force_uuid (env.without "{system_uuid}" s.username)))
                    | inr no_uuid ↦
                        rw no_uuid (set_username-Waits (strip_end b'.' s.username) s w h)
                  ])
            ])
  ]
    where
      by_address :
          (found : Option String)
          → Ends {A = HostFilter × Option AuthenticationMethod}
              (λ _. Waits)
              Refused
              (elim found [
                | none ↦ (raised value_error, (s, w))
                | some a ↦ (done (by_hardware_address a, some hardware_address), (s, w))
              ])
      by_address none = h.1
      by_address (some a) = h

      by_uuid :
          (found : Option String)
          → Ends {A = HostFilter × Option AuthenticationMethod}
              (λ _. Waits)
              Refused
              (elim found [
                | none ↦ (raised value_error, (s, w))
                | some u ↦ (done (by_system_uuid u, some system_uuid), (s, w))
              ])
      by_uuid none = h.1
      by_uuid (some u) = h

  only_host-one :
      (hosts : List Host) (st : Session × World)
      → Waits st
      → Ends (λ h t. (hosts ≡ h ∷ []) × Waits t) Refused (only_host env config cn hosts st)
  unfolding only_host
  only_host-one [] st p = p.1
  only_host-one (h ∷ []) st p = (refl, p)
  only_host-one (h ∷ g ∷ hs) st p = p.1

  check_host_certificate-Waits :
      (h : Host) (st : Session × World)
      → Waits st
      → Ends (λ _. Waits) Refused (check_host_certificate env config cn h st)
  unfolding check_host_certificate
  check_host_certificate-Waits h st p =
      elim (Bool-cases (wants_certificate env config cn h && env.vpn_module_available)) [
        | inl wanted ↦
            rw wanted (elim (Bool-cases (not (truthy cn) || not (eq_option cn (some h.id)))) [
              | inl wrong ↦ rw wrong p.1
              | inr right ↦ rw right (add_auth_method-Waits tls_certificate st.0 st.1 p)
            ])
        | inr unwanted ↦ rw unwanted p
      ]

  -- The host that is let in, but for its onetime password.
  abbrev Passed : Host → Host → Session × World → Type 0
  Passed h g st = (FitsHost password h) × (g.id ≡ h.id) × (is_server g ≡ is_server h)

  check_host_password-Passed :
      (h : Host) (st : Session × World)
      → Waits st
      → truthy h.opsi_host_key ≡ true
      → Ends (Passed h) Refused (check_host_password env config cn h st)
  unfolding check_host_password
  check_host_password-Passed h (s, w) p k =
      elim (Bool-cases (truthy h.opsi_host_key && eq_option s.password h.opsi_host_key)) [
        | inl by_key ↦ rw by_key ((k, ground (arith, p.0)), refl, refl)
        | inr no_key ↦
            rw no_key
              (elim (Bool-cases (
                not (is_server h)
                && truthy h.one_time_password
                && eq_option s.password h.one_time_password)) [
                  | inl onetime ↦ rw onetime (
                      used (ground (arith, p.0))
                        (env.updates_host (without_onetime env config cn h) none))
                  | inr wrong ↦ rw wrong p.1
                ])
      ]
    where
      used :
          ((eq_option password h.opsi_host_key
              || (not (is_server h)
                  && truthy h.one_time_password
                  && eq_option password h.one_time_password))
            ≡ true)
          → (b : Bool)
          → Ends (Passed h) Refused (
            if b then done (without_onetime env config cn h) else raised runtime_error,
            (add_auth_method password_onetime s, w),
          )
      used fits true = ((k, fits), refl, refl)
      used fits false = (add_auth_method-Waits password_onetime s w p).1

pub set_username-sets :
    (v : String) (s : Session)
    → ((set_username v s).username ≡ v)
      × ((set_username v s).authenticated ≡ s.authenticated)
      × ((set_username v s).is_admin ≡ s.is_admin)
unfolding set_username set_modified
set_username-sets v s = (ground (arith, eq_iff s.username v), ground arith, ground arith)

set_is_admin-sets :
    (v : Bool) (s : Session)
    → ((set_is_admin v s).is_admin ≡ v) × ((set_is_admin v s).authenticated ≡ s.authenticated)
unfolding set_is_admin set_modified
set_is_admin-sets v s = (ground arith, ground arith)

set_is_read_only-authenticated :
    (v : Bool) (s : Session) → (set_is_read_only v s).authenticated ≡ s.authenticated
unfolding set_is_read_only set_modified
set_is_read_only-authenticated v s = ground arith

pub set_authenticated-sets : (v : Bool) (s : Session) → (set_authenticated v s).authenticated ≡ v
unfolding set_authenticated set_modified
set_authenticated-sets v s = ground arith

module _ (env : Env) (config : Config) (cn : Option String) where
  -- Where an exception is raised although the session is that of a host, it is no authentication error.
  abbrev Late : Host → Error → Session × World → Type 0
  Late h e st = (e ≢ authentication_error) × IsSessionOf h st.0

  accept_host-IsSessionOf :
      (h : Host) (s : Session) (w : World)
      → Ends (λ _ t. IsSessionOf h t.0) (Late h) (accept_host env config cn h (s, w))
  unfolding accept_host
  accept_host-IsSessionOf h s w =
      let s₁ = set_authenticated true (set_host env.same_host (some h) s) in
      let s₂ = set_is_read_only false s₁ in
      let s₃ = set_is_admin (is_server h) s₂ in
      let named = set_username-sets h.id s₃ in
      let made_admin = set_is_admin-sets (is_server h) s₂ in
      either (is_server h || env.updates_host h (some s.client_addr)) _ (
        named.0,
        named.1
            ∙ made_admin.1
            ∙ set_is_read_only-authenticated false s₁
            ∙ set_authenticated-sets true (set_host env.same_host (some h) s),
        named.2 ∙ made_admin.0,
      )
    where
      either :
          (b : Bool) (t : Session × World)
          → IsSessionOf h t.0
          → Ends {A = Unit {0}}
              (λ _ t. IsSessionOf h t.0)
              (Late h)
              (if b then done tt else raised runtime_error, t)
      either true t p = p
      either false t p = ((λ e. cc e), p)

  -- The host that let the session in.
  abbrev pub LetIn : Option String → Session × World → Type 0
  LetIn password st =
      (f : HostFilter) × (h : Host) × (env.find_hosts f ≡ h ∷ [])
      × FitsHost password h
      × IsSessionOf h st.0

  -- How the login of a host fails: it is not authenticated, or it has been let in and no authentication
  -- error is raised.
  abbrev Stopped : Option String → Host → Error → Session × World → Type 0
  Stopped password h e st =
      (st.0.authenticated ≡ false)
      ⊎ ((e ≢ authentication_error) × FitsHost password h × IsSessionOf h st.0)

  before :
      {A : Type 0} (password : Option String) (h : Host) (P : A → Session × World → Type 0)
      (r : Outcome Error A × (Session × World))
      → Ends P Refused r
      → Ends P (Stopped password h) r
  before password h P r p =
      Ends-imp P P Refused (Stopped password h) r p (λ _ _ q. q) (λ _ _ q. inl q)

  accepted :
      (password : Option String) (h g : Host) (st : Session × World)
      → Passed env config cn password h g st
      → Ends
          (λ _ t. FitsHost password h × IsSessionOf h t.0)
          (Stopped password h)
          (accept_host env config cn g st)
  accepted password h g st (fits, same_id, same_kind) =
      Ends-imp (λ _ t. IsSessionOf g t.0) (λ _ t. FitsHost password h × IsSessionOf h t.0) (Late g)
        (Stopped password h) (accept_host env config cn g st) (accept_host-IsSessionOf g st.0 st.1)
        (λ _ t p. (fits, (p.0 ∙ same_id, p.1, p.2 ∙ same_kind)))
        (λ _ t p. inr (p.0, fits, (p.1.0 ∙ same_id, p.1.1, p.1.2 ∙ same_kind)))

  add_optional-Waits :
      (password : Option String) (m : Option AuthenticationMethod) (s : Session) (w : World)
      → Waits env config cn password (s, w)
      → Waits env config cn password (add_optional env config cn m s, w)
  add_optional-Waits password none s w p = p
  add_optional-Waits password (some m) s w p = add_auth_method-Waits env config cn password m s w p

  confirm_host-Ends :
      (password : Option String) (m : Option AuthenticationMethod) (h : Host) (s : Session)
      (w : World)
      → Waits env config cn password (s, w)
      → Ends
          (λ _ t. FitsHost password h × IsSessionOf h t.0)
          (Stopped password h)
          (confirm_host env config cn m h (s, w))
  unfolding confirm_host
  confirm_host-Ends password m h s w p =
      let t = add_optional env config cn m s in
      let q = add_optional-Waits password m s w p in
      let Fits : Unit {0} → Session × World → Type 0 =
        λ _ t. FitsHost password h × IsSessionOf h t.0 in
      let Keyed : Session × World → Type 0 =
        λ x. (truthy h.opsi_host_key ≡ true) × Waits env config cn password x in
      let Stops : Error → Session × World → Type 0 = Stopped password h in
      Ends-bind (λ _. Keyed) Fits Stops
        (raise_if (not (truthy h.opsi_host_key)) authentication_error (t, w)) _
        (raise_if-Ends Keyed Stops (not (truthy h.opsi_host_key)) authentication_error (t, w)
          (λ key. (ground arith, q)) (inl q.1))
        (λ _ v keyed.
          Ends-bind (λ _. Waits env config cn password) Fits Stops
            (check_host_certificate env config cn h v) _
            (before password h (λ _. Waits env config cn password) _
              (check_host_certificate-Waits env config cn password h v keyed.1))
            (λ _ x r.
              Ends-bind (Passed env config cn password h) Fits Stops
                (check_host_password env config cn h x) _
                (before password h (Passed env config cn password h) _
                  (check_host_password-Passed env config cn password h x r keyed.0))
                (λ g y passed. accepted password h g y passed)))

  -- How `authenticate_host` fails.
  abbrev pub NotLetIn : Option String → Error → Session × World → Type 0
  NotLetIn password e st =
      (st.0.authenticated ≡ false) ⊎ ((e ≢ authentication_error) × LetIn password st)

  -- From a session that is not authenticated: if a host is let in, a search found exactly that host,
  -- the host has a key, the password is its key or, for a client, its onetime password, and the
  -- session has the host's name and is an administrator's exactly if the host is a server. If an
  -- exception is raised, the session is not authenticated, or a host has been let in just so, and it is
  -- no authentication error.
  pub authenticate_host-LetIn :
      (s : Session) (w : World)
      → s.authenticated ≡ false
      → Ends (λ _. LetIn s.password) (NotLetIn s.password) (authenticate_host env config cn (s, w))
  unfolding authenticate_host
  authenticate_host-LetIn s w h =
      let password = s.password in
      let Waiting : Session × World → Type 0 = Waits env config cn password in
      let Fails : Error → Session × World → Type 0 = NotLetIn password in
      Ends-bind (λ _. Waiting) (λ _. LetIn password) Fails (host_search env config cn (s, w)) _
        (Ends-imp (λ _. Waiting) (λ _. Waiting) Refused Fails (host_search env config cn (s, w))
          (host_search-Waits env config cn password s w (refl, h)) (λ _ _ q. q) (λ _ _ q. inl q))
        (λ search t p.
          let One : Host → Session × World → Type 0 =
            λ h t. (env.find_hosts search.0 ≡ h ∷ []) × Waiting t in
          Ends-bind One (λ _. LetIn password) Fails
            (only_host env config cn (env.find_hosts search.0) t) _
            (Ends-imp One One Refused Fails (only_host env config cn (env.find_hosts search.0) t)
              (only_host-one env config cn password (env.find_hosts search.0) t p) (λ _ _ q. q)
              (λ _ _ q. inl q))
            (λ g u found.
              Ends-imp (λ _ v. FitsHost password g × IsSessionOf g v.0) (λ _. LetIn password)
                (Stopped password g) Fails (confirm_host env config cn search.1 g u)
                (confirm_host-Ends password search.1 g u.0 u.1 found.1)
                (λ _ v fits. (search.0, g, found.0, fits.0, fits.1))
                (λ e v stopped. elim stopped [
                  | inl out ↦ inl out
                  | inr late ↦ inr (late.0, (search.0, g, found.0, late.1, late.2))
                ])))
