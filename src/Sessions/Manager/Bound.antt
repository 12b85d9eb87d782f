-- ===== src/Sessions/Manager/Bound.antt =====
-- The session that `get_session` returns.
use opsiconfd.Prelude.{
  String, [], ◌∷◌, ◌≡◌, refl, ◌∙◌, Option, none, some, Bool, true, false, not, ◌&&◌, arith,
  if◌then◌else◌, ◌==◌, Bool-cases, inl, inr, ◌⊎◌, eq_refl, subst,
}
use opsiconfd.Prelude.Dict.{lookup, remove, lookup-insert}
use opsiconfd.Prelude.Effect.{Outcome, done, raised, Ends, Ends-after}
use opsiconfd.Sessions.Data.{Session, set_last_used, set_max_age, set_modified}
use opsiconfd.Sessions.World.{Error, assertion_error, World, Config, Env, is_expired}
use opsiconfd.Sessions.Store.{refresh}
use opsiconfd.Sessions.Start.{Headers, accept_lifetime, set_headers}
use opsiconfd.Sessions.Manager.{
  Manager, is_unaware, put_back, reuse, registered, resumed, start_session, get_session,
}

-- A session of an address, which the manager has, if it is kept.
abbrev IsBound : String → Session → Manager → Type 0
IsBound addr s m =
    ((s.client_addr == addr) ≡ true)
    × (s.persistent ≡ true → (key : String) × (lookup key m.sessions ≡ some s))

module _ (env : Env) where
  accept_lifetime-keeps :
      (v : Option String) (s : Session)
      → ((accept_lifetime env v s).client_addr ≡ s.client_addr)
        × ((accept_lifetime env v s).persistent ≡ s.persistent)
        × ((accept_lifetime env v s).session_id ≡ s.session_id)
  unfolding accept_lifetime set_max_age set_modified
  accept_lifetime-keeps none s = (refl, refl, refl)
  accept_lifetime-keeps (some v) s = (ground arith, ground arith, ground arith)

  set_headers-keeps :
      (headers : Headers) (s : Session)
      → ((set_headers env headers s).client_addr ≡ s.client_addr)
        × ((set_headers env headers s).persistent ≡ s.persistent)
        × ((set_headers env headers s).session_id ≡ s.session_id)
  unfolding set_headers
  set_headers-keeps [] s = (refl, refl, refl)
  set_headers-keeps (h ∷ hs) s = accept_lifetime-keeps _ _

module _ (env : Env) (config : Config) (addr : String) (headers : Headers) where
  abbrev Binds : Outcome Error Session × (Manager × World) → Type 0
  Binds = Ends (λ s st. IsBound addr s st.0) (λ _ _. Unit)

  put_back-IsBound :
      (id : String) (s : Session) (m : Manager)
      → s.session_id ≡ some id
      → (s.client_addr == addr) ≡ true
      → IsBound addr s (put_back s m)
  unfolding put_back
  put_back-IsBound id s m e h =
      (h, λ kept. (id, ground (arith, lookup-insert id id s m.sessions, eq_refl id)))

  registered-Binds :
      (m : Manager) (r : Outcome Error (Unit {0}) × (Session × World))
      → Binds (registered env config addr headers m r)
  registered-Binds m (raised e, (s, w)) = tt
  registered-Binds m (done u, (s, w)) = elim (Bool-cases (s.client_addr == addr)) [
    | inl here ↦ rw here (go s.session_id refl here)
    | inr elsewhere ↦ rw elsewhere tt
  ]
    where
      marked : Session
      marked = if is_unaware s.user_agent then record s { persistent = false } else s

      marked-keeps : (marked.client_addr ≡ s.client_addr) × (marked.session_id ≡ s.session_id)
      marked-keeps = (ground arith, ground arith)

      started : Session
      started = set_headers env headers marked

      started-addr : started.client_addr ≡ s.client_addr
      started-addr = (set_headers-keeps env headers marked).0 ∙ marked-keeps.0

      started-id : started.session_id ≡ s.session_id
      started-id = (set_headers-keeps env headers marked).2 ∙ marked-keeps.1

      unaware-forgets : is_unaware s.user_agent ≡ true → started.persistent ≡ false
      unaware-forgets h = (set_headers-keeps env headers marked).1 ∙ ground arith

      go :
          (id : Option String)
          → s.session_id ≡ id
          → (s.client_addr == addr) ≡ true
          → Binds (elim id [
            | none ↦
                if is_unaware s.user_agent
                then (done started, (m, w))
                else (raised assertion_error, (m, w))
            | some id ↦
                if id == "" && not (is_unaware s.user_agent)
                then (raised assertion_error, (m, w))
                else (done started, (put_back started m, w))
          ])
      go none e here = elim (Bool-cases (is_unaware s.user_agent)) [
        | inl unaware ↦
            rw unaware (ground (arith, started-addr), λ kept. cc (unaware-forgets unaware))
        | inr aware ↦ rw aware tt
      ]
      go (some id) e here = elim (Bool-cases (id == "" && not (is_unaware s.user_agent))) [
        | inl unnamed ↦ rw unnamed tt
        | inr named ↦
            rw named (put_back-IsBound id started m (started-id ∙ e) (ground (arith, started-addr)))
      ]

  reuse-addr :
      (s : Session) (w : World)
      → Ends
          (λ fresh st. fresh ≡ true → (st.0.client_addr == addr) ≡ true)
          (λ _ _. Unit)
          (reuse env config addr s w)
  unfolding reuse set_last_used set_modified
  reuse-addr s w =
      Ends-after (λ fresh st. fresh ≡ true → (st.0.client_addr == addr) ≡ true) (refresh env (s, w))
        _
        (λ fresh st.
          elim (Bool-cases
            (fresh && not (is_expired st.1.clock st.0) && (st.0.client_addr == addr))) [
              | inl same ↦ rw same (λ _. ground arith)
              | inr other ↦ rw other (λ h. cc)
            ])

  start_session-Binds :
      (id : Option String) (st : Manager × World)
      → Binds (start_session env config addr headers id st)
  unfolding start_session
  start_session-Binds id (m, w) = registered-Binds m _

  resumed-Binds :
      (id : String) (m : Manager) (r : Outcome Error Bool × (Session × World))
      → Ends (λ fresh st. fresh ≡ true → (st.0.client_addr == addr) ≡ true) (λ _ _. Unit) r
      → Binds (resumed env config addr headers id m r)
  resumed-Binds id m (raised e, (s, w)) h = tt
  resumed-Binds id m (done false, (s, w)) h =
      start_session-Binds none (record m { sessions = remove id m.sessions }, w)
  resumed-Binds id m (done true, (s, w)) h =
      let s' = set_headers env headers s in
      (
        ground (arith, h refl, (set_headers-keeps env headers s).0),
        λ kept. (id, ground (arith, lookup-insert id id s' m.sessions, eq_refl id)),
      )

  get_session-Binds :
      (id : Option String) (st : Manager × World)
      → Binds (get_session env config addr headers id st)
  unfolding get_session
  get_session-Binds id (m, w) = elim (Bool-cases m.should_stop) [
    | inl stopped ↦ rw stopped tt
    | inr running ↦ rw running (by_id id)
  ]
    where
      by_found :
          (i : String) (found : Option Session)
          → Binds (elim found [
            | none ↦ start_session env config addr headers (some i) (m, w)
            | some s ↦ resumed env config addr headers i m (reuse env config addr s w)
          ])
      by_found i none = start_session-Binds (some i) (m, w)
      by_found i (some s) = resumed-Binds i m (reuse env config addr s w) (reuse-addr s w)

      by_id :
          (id : Option String)
          → Binds (elim id [
            | none ↦ start_session env config addr headers none (m, w)
            | some i ↦
                if i == ""
                then start_session env config addr headers none (m, w)
                else elim (lookup i m.sessions) [
                  | none ↦ start_session env config addr headers (some i) (m, w)
                  | some s ↦ resumed env config addr headers i m (reuse env config addr s w)
                ]
          ])
      by_id none = start_session-Binds none (m, w)
      by_id (some i) = elim (Bool-cases (i == "")) [
        | inl unnamed ↦ rw unnamed (start_session-Binds none (m, w))
        | inr named ↦ rw named (by_found i (lookup i m.sessions))
      ]

  -- The session that `get_session` returns is one of the client's own address, whatever session id
  -- the client sent, and it is one that is not kept or one that the manager has.
  pub get_session-own :
      (id : Option String) (st : Manager × World) (s : Session) (st' : Manager × World)
      → get_session env config addr headers id st ≡ (done s, st')
      → ((s.client_addr == addr) ≡ true)
        × ((s.persistent ≡ false) ⊎ ((key : String) × (lookup key st'.0.sessions ≡ some s)))
  get_session-own id st s st' e =
      let bound : IsBound addr s st'.0 = subst Binds e (get_session-Binds id st) in
      (
        bound.0,
        elim (Bool-cases s.persistent) [
          | inl kept ↦ inr (bound.1 kept)
          | inr forgotten ↦ inl forgotten
        ],
      )
