-- ===== src/Sessions/Start.antt =====
-- How a session starts: `__init__`, the `headers` setter, `_reset_auth_data`, `init_new_session` and
-- `init` of `OPSISession` in opsiconfd/session.py, and its cookie.
pub mod Bounds
use opsiconfd.Prelude.{
  ℕ, suc, ◌+◌, ◌-◌, ◌*◌, String, List, [], ◌∷◌, Option, none, some, Bool, true, false, not, ◌&&◌,
  ◌||◌, if◌then◌else◌, ◌==◌, eqb, leb, ltb,
}
use Prim.Native.String.{◌++◌ as ◌+++◌}
use text.Mathlib.Text.{starts_with}
use opsiconfd.Prelude.Text.{contains}
use opsiconfd.Prelude.Dict.{Dict, lookup, insert, remove}
use opsiconfd.Prelude.Effect.{
  Effect, Outcome, done, raised, pure, raise, change, raise_if, ◌>>=◌, ◌>>◌,
}
use opsiconfd.Sessions.Data.{
  Session, set_username, set_user_groups, set_host, set_authenticated, set_auth_methods,
  set_is_admin, set_is_read_only, set_max_age, set_created, set_version,
}
use opsiconfd.Sessions.World.{Error, http_exception, Row, World, Config, Env, Act, is_expired}
use opsiconfd.Sessions.Store.{load, update_last_used}

-- The headers that the code reads, by their names in lower case; `Headers` ignores case.
abbrev pub Headers : Type 0
Headers = Dict String

abbrev or_empty : Option String → String
or_empty none = ""
or_empty (some v) = v

module _ (env : Env) where
  -- What `x-opsi-session-lifetime` changes.
  unfoldable pub accept_lifetime : Option String → Session → Session
  accept_lifetime none s = s
  accept_lifetime (some v) s = elim (env.int_of v) [
    | none ↦ s
    | some n ↦ if ltb 0 n && leb n (3600 * 24) then set_max_age n s else s
  ]

  abbrev pub non_empty : Option String → Option String
  non_empty none = none
  non_empty (some v) = if v == "" then none else some v

  -- The `headers` setter.
  unfoldable pub set_headers : Headers → Session → Session
  unfolding accept_lifetime
  set_headers [] s = s
  set_headers (h ∷ hs) s =
      accept_lifetime (non_empty (lookup "x-opsi-session-lifetime" (h ∷ hs)))
        (record s { user_agent = or_empty (lookup "user-agent" (h ∷ hs)) })

  -- `__init__`
  pub new_session : Config → String → Headers → Option String → Session
  unfolding set_headers
  new_session config addr headers id = set_headers headers (record {
    password = none;
    deleted = false;
    persistent = true;
    last_stored = 0;
    session_id = non_empty id;
    modifications = [];
    version = "";
    client_addr = addr;
    user_agent = "";
    max_age = config.session_lifetime;
    created = 0;
    last_used = 0;
    messagebus_last_used = 0;
    username = "";
    user_groups = [];
    host = none;
    authenticated = false;
    auth_methods = [];
    is_admin = false;
    is_read_only = false;
  })

  -- `_reset_auth_data`
  unfoldable pub reset_auth_data : Session → Session
  reset_auth_data s =
      let s' : Session = record (set_username "" s) { password = none } in
      set_is_read_only false (
        set_is_admin false (
          set_auth_methods []
            (set_authenticated false (set_host env.same_host none (set_user_groups [] s')))))

  -- The limit of sessions for an address, and the known depots after the lookup; 0 is no limit.
  unfoldable pub session_limit : Config → String → World → ℕ × World
  session_limit config addr w =
      if contains addr config.max_sessions_excludes
      then (0, w)
      else elim (lookup addr w.depot_addresses) [
        | none ↦ (config.max_session_per_ip, w)
        | some seen ↦ if leb w.clock (seen + config.session_lifetime) then (0, w) else (
          config.max_session_per_ip,
          record w { depot_addresses = remove addr w.depot_addresses },
        )
      ]

  -- `validity > 0` of a session in redis; one without readable times has none.
  unfoldable pub is_valid_row : ℕ → Row → Bool
  is_valid_row clock row = elim (lookup "max_age" row) [
    | none ↦ false
    | some a ↦ elim (lookup "last_used" row) [
      | none ↦ false
      | some u ↦ elim (env.int_of a) [
        | none ↦ false
        | some age ↦ elim (env.int_of u) [ none ↦ false | some used ↦ not (leb (age + used) clock) ]
      ]
    ]
  ]

  -- The prefix that `scan_iter` looks for.
  unfoldable pub scan_prefix : String → String
  scan_prefix addr = env.redis_key +++ ":" +++ env.ip_address_to_redis_key addr +++ ":"

  -- The loop over the sessions of an address: counts the valid ones, and deletes the others.
  unfoldable pub count_sessions : String → ℕ → Dict Row → ℕ × Dict Row
  unfolding is_valid_row
  count_sessions prefix clock [] = (0, [])
  count_sessions prefix clock ((key, row) ∷ rows) =
      let (n, kept) = count_sessions prefix clock rows in
      if not (starts_with key prefix)
      then (n, (key, row) ∷ kept)
      else if is_valid_row clock row
      then (suc n, (key, row) ∷ kept)
      else (n, kept)

  -- A new id, version and time of creation.
  unfoldable pub draw_session : Session × World → Session × World
  draw_session (s, w) = (
    set_created w.clock
        (set_version (env.uuid (suc w.drawn)) (record s { session_id = some (env.uuid w.drawn) })),
    record w { drawn = suc (suc w.drawn) },
  )

  -- `init_new_session`, from the scan on.
  unfoldable pub start_limited : ℕ → Act (Unit {0})
  unfolding count_sessions draw_session scan_prefix
  start_limited limit (s, w) =
      let (n, rows) = count_sessions (scan_prefix s.client_addr) w.clock w.rows in
      (do raise_if (ltb 0 limit && ltb limit (n + 1)) (http_exception 403 []); change draw_session)
        (s, record w { rows = rows })

  -- `init_new_session`
  unfoldable pub init_new_session : Config → Act (Unit {0})
  unfolding session_limit start_limited reset_auth_data
  init_new_session config (s, w) =
      let s' = reset_auth_data s in
      let (limit, w') = session_limit config s'.client_addr w in start_limited limit (s', w')

  abbrev if_loaded : Config → Bool → Act (Unit {0})
  if_loaded config false st = init_new_session config st
  if_loaded config true st =
      if is_expired st.1.clock st.0 then init_new_session config st else pure tt st

  -- `init`
  pub init : Config → Act (Unit {0})
  unfolding init_new_session
  init config (s, w) =
      (do
        elim s.session_id [
          | none ↦ init_new_session config
          | some id ↦ load env >>= if_loaded config
        ]
        update_last_used env)
        (s, w)

-- `in_use_by_messagebus`
abbrev pub in_use_by_messagebus : ℕ → Session → Bool
in_use_by_messagebus clock s = ltb clock (s.messagebus_last_used + 60)

module _ (env : Env) where
  -- `get_cookie`
  unfoldable pub get_cookie : ℕ → Session → Option String
  get_cookie clock s = elim s.session_id [
    | none ↦ none
    | some id ↦
        if id == "" || not s.persistent
        then none
        else some (
            "opsiconfd-session="
            +++ id
            +++ "; SameSite=Strict; Secure; path=/"
            +++ (if in_use_by_messagebus clock s
                then ""
                else if s.deleted
                then "; Max-Age=0"
                else "; Max-Age=" +++ env.decimal s.max_age))
  ]

  -- `add_cookie_to_headers`
  unfoldable pub add_cookie_to_headers : ℕ → Session → Headers → Headers
  unfolding get_cookie
  add_cookie_to_headers clock s headers = elim (get_cookie clock s) [
    | none ↦ headers
    | some cookie ↦ elim (lookup "set-cookie" headers) [
      | none ↦ insert "set-cookie" cookie headers
      | some old ↦ headers
    ]
  ]
