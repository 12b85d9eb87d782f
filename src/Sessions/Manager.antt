-- ===== src/Sessions/Manager.antt =====
-- `SessionManager` of opsiconfd/session.py. The dict of sessions and the handler of a request hold
-- the same session objects: here a handler puts the session that it changed back.
pub mod Bound
use opsiconfd.Prelude.{
  ℕ, suc, ◌+◌, ◌/◌, String, List, [], ◌∷◌, ◌++◌, Option, none, some, Bool, true, false, not, ◌&&◌,
  ◌||◌, if◌then◌else◌, ◌==◌, eqb, leb, ltb, min, all,
}
use text.Mathlib.Text.{starts_with}
use opsiconfd.Prelude.Text.{eq_option}
use opsiconfd.Prelude.Dict.{Dict, lookup, insert, remove}
use opsiconfd.Prelude.Effect.{
  Effect, Outcome, done, raised, pure, raise, change, raise_if, ◌>>=◌, ◌>>◌,
}
use opsiconfd.Sessions.Data.{
  Attribute, is_attribute, last_used, messagebus_last_used, Session, set_last_used,
}
use opsiconfd.Sessions.World.{
  Error, runtime_error, assertion_error, World, Config, Env, Act, is_expired,
}
use opsiconfd.Sessions.Store.{
  refresh, store, delete, is_stored, get_version_from_redis, update_last_used, is_empty,
}
use opsiconfd.Sessions.Start.{Headers, set_headers, new_session, init}

pub record Manager : Type 0 where
  pub sessions : Dict Session
  pub should_stop : Bool

-- What all requests of a process share.
abbrev pub Shared : Type 0 → Type 0
Shared = Effect (Manager × World) Error

-- The agents that never send a cookie.
pub is_unaware : String → Bool
is_unaware agent = starts_with agent "libdnf" || starts_with agent "curl"

-- The entry of a session in the dict of the manager, if it has one.
unfoldable pub put_back : Session → Manager → Manager
put_back s m = elim s.session_id [
  | none ↦ m
  | some id ↦ if s.persistent then record m { sessions = insert id s m.sessions } else m
]

module _ (env : Env) (config : Config) where
  -- The manager's session, if it may be used again.
  unfoldable pub reuse : String → Session → World → Outcome Error Bool × (Session × World)
  reuse addr s w =
      (do
        fresh ← refresh env
        λ st.
            if fresh && not (is_expired st.1.clock st.0) && (st.0.client_addr == addr)
            then (done true, (set_last_used st.1.clock st.0, st.1))
            else (done false, st))
        (s, w)

  -- What becomes of a session that has just been initialised.
  abbrev pub registered :
      String
      → Headers
      → Manager
      → Outcome Error (Unit {0}) × (Session × World)
      → Outcome Error Session × (Manager × World)
  registered addr headers m (raised e, (s, w)) = (raised e, (m, w))
  registered addr headers m (done u, (s, w)) =
      let s' : Session =
        set_headers env headers
          (if is_unaware s.user_agent then record s { persistent = false } else s) in
      if not (s.client_addr == addr) then (raised assertion_error, (m, w)) else elim s.session_id [
        | none ↦
            if is_unaware s.user_agent then (done s', (m, w)) else (raised assertion_error, (m, w))
        | some id ↦
            if id == "" && not (is_unaware s.user_agent)
            then (raised assertion_error, (m, w))
            else (done s', (put_back s' m, w))
      ]

  -- From `OPSISession(...)` on.
  pub start_session : String → Headers → Option String → Shared Session
  start_session addr headers id (m, w) =
      registered addr headers m (init env config (new_session env config addr headers id, w))

  abbrev pub resumed :
      String
      → Headers
      → String
      → Manager
      → Outcome Error Bool × (Session × World)
      → Outcome Error Session × (Manager × World)
  resumed addr headers id m (raised e, (s, w)) =
      (raised e, (record m { sessions = insert id s m.sessions }, w))
  resumed addr headers id m (done false, (s, w)) =
      start_session addr headers none (record m { sessions = remove id m.sessions }, w)
  resumed addr headers id m (done true, (s, w)) =
      let s' = set_headers env headers s in
      (done s', (record m { sessions = insert id s' m.sessions }, w))

  -- `get_session`
  unfoldable pub get_session : String → Headers → Option String → Shared Session
  unfolding start_session reuse
  get_session addr headers id (m, w) =
      if m.should_stop then (raised runtime_error, (m, w)) else elim id [
        | none ↦ start_session addr headers none (m, w)
        | some i ↦
            if i == "" then start_session addr headers none (m, w) else elim (lookup i m.sessions) [
              | none ↦ start_session addr headers (some i) (m, w)
              | some s ↦ resumed addr headers i m (reuse addr s w)
            ]
      ]

  abbrev only_used : List Attribute → Bool
  only_used = all (λ a. is_attribute a last_used || is_attribute a messagebus_last_used)

  abbrev same_version : Session → Option String → Bool
  same_version s none = false
  same_version s (some v) = s.version == v

  -- `if ...: await act`
  abbrev when_true : Bool → Act (Unit {0}) → Act (Unit {0})
  when_true true act = act
  when_true false act = pure tt

  -- `is_stored`, then `store` or the mark of a session that was deleted elsewhere.
  abbrev store_if_stored : Act Bool
  store_if_stored = do
    stored ← is_stored env
    if stored
        then (store env true >>= λ u. pure false)
        else (λ st. (done true, (record st.0 { deleted = true }, st.1)))

  -- What the manager's loop does with one session; `true` drops the session.
  pub tend : Act Bool
  tend (s, w) =
      if is_expired w.clock s
      then (do v ← get_version_from_redis env; when_true (same_version s v) (delete env); pure true)
          (s, w)
      else if s.deleted
      then (done true, (s, w))
      else if eqb s.last_stored 0
      then (store env false >>= λ u. pure false) (s, w)
      else if is_empty s.modifications
      then (done false, (s, w))
      else if only_used s.modifications
      then if s.authenticated && leb (s.last_stored + min (s.max_age / 2) 60) w.clock
        then store_if_stored (s, w)
        else (done false, (s, w))
      else (store env true >>= λ u. pure false) (s, w)

  -- A round over the sessions; an exception ends it with no session dropped.
  abbrev pub Round : Type 0
  Round = Option (List String) × Dict Session × World

  abbrev dropped : Option String → List String → List String
  dropped none ids = ids
  dropped (some id) ids = id ∷ ids

  abbrev tended :
      String → Outcome Error Bool × (Session × World) → Dict Session → (World → Round) → Round
  tended key (raised e, (s, w)) rest next = (none, (key, s) ∷ rest, w)
  tended key (done drop, (s, w)) rest next =
      let (ids, rest', w') = next w in
      (
        elim ids [ none ↦ none | some is ↦ some (if drop then dropped s.session_id is else is) ],
        (key, s) ∷ rest',
        w',
      )

  pub tend_all : Dict Session → World → Round
  unfolding tend
  tend_all [] w = (some [], [], w)
  tend_all ((key, s) ∷ rest) w = tended key (tend (s, w)) rest (tend_all rest)

  pub drop_all : List String → Dict Session → Dict Session
  drop_all [] sessions = sessions
  drop_all (id ∷ ids) sessions = drop_all ids (remove id sessions)

  -- One turn of the loop in `manager_task`.
  pub manage : Manager × World → Manager × World
  unfolding tend_all drop_all
  manage (m, w) =
      let (ids, sessions, w') = tend_all m.sessions w in
      elim ids [
        | none ↦ (record m { sessions = sessions }, w')
        | some is ↦ (record m { sessions = drop_all is sessions }, w')
      ]
