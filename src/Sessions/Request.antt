-- ===== src/Sessions/Request.antt =====
-- `SessionMiddleware` and `check_access` of opsiconfd/session.py: what becomes of a request before
-- the application gets it.
pub mod Credentials
pub mod Access
use opsiconfd.Prelude.{
  ℕ, ◌+◌, ◌-◌, String, List, [], ◌∷◌, ◌++◌, Option, none, some, Bool, true, false, not, ◌&&◌, ◌||◌,
  if◌then◌else◌, ◌==◌, leb, ltb, eqb, any,
}
use text.Mathlib.Text.{starts_with}
use opsiconfd.Prelude.Text.{truthy, contains}
use opsiconfd.Prelude.Split.{cut, cut_last, count_char, split, drop_text}
use opsiconfd.Prelude.Dict.{Dict, lookup, insert}
use opsiconfd.Prelude.Effect.{
  Effect, Outcome, done, raised, pure, raise, change, raise_if, catch, ◌>>=◌, ◌>>◌,
}
use opsiconfd.Sessions.Data.{Session, Host}
use opsiconfd.Sessions.World.{
  Error, permission_denied, value_error, http_exception, assertion_error, World, Config, Env, Act,
}
use opsiconfd.Sessions.Start.{Headers}
use opsiconfd.Sessions.Manager.{Manager, Shared, get_session, put_back}
use opsiconfd.Sessions.Checks.{check_network}
use opsiconfd.Sessions.Login.{authenticate}
use opsiconfd.Sessions.Headers.{get_session_id_from_headers, get_basic_auth}

pub data Role : Type 0 where
  public authenticated admin : Role

-- The ASGI scope and its headers, as far as the code reads them.
pub record Request : Type 0 where
  pub client_addr : String
  pub scope_type : String
  pub full_path : String
  pub method : Option String
  pub headers : Headers
  pub peer_cert_cn : Option String

pub record Maintenance : Type 0 where
  pub address_exceptions : List String
  pub retry_after : ℕ

-- The state of the middleware and of the application: until when it is overloaded, and whether it
-- is under maintenance. An addon is given the role and the session of the scope, says whether it has
-- answered the request, and may change both.
pub record App : Type 0 where
  pub overload_until : ℕ
  pub maintenance : Option Maintenance
  pub public_path : List String
  pub addon : Request → Role → Option Session → Bool × (Role × Option Session)

-- What a request leads to, if no exception is raised.
pub data Answer : Type 0 where
  calls_app : Role → Option Session → Answer
  addon_answered : Answer

-- `set_overload`
pub set_overload : ℕ → ℕ → App → App
set_overload clock duration app = record app { overload_until = clock + duration }

-- `check_overload`: the time left, and the state after it.
unfoldable pub check_overload : ℕ → App → ℕ × App
check_overload clock app =
    if leb app.overload_until clock
    then (0, record app { overload_until = 0 })
    else (app.overload_until - clock, app)

abbrev starts_with_any : String → List String → Bool
starts_with_any s = any (starts_with s)

-- `scope["full_path"].startswith("/depot")` and the like.
abbrev pub is_under : String → Request → Bool
is_under prefix req = starts_with req.full_path prefix

-- `required_access_role`, before the paths for all who are logged in.
unfoldable pub path_role : App → Request → Role
path_role app req =
    if not (req.full_path == "")
      && (req.full_path == "/" || starts_with_any req.full_path app.public_path)
    then public
    else admin

abbrev reads : Request → Bool
reads req = elim req.method [
  | none ↦ false
  | some m ↦ contains m ("GET" ∷ "HEAD" ∷ "OPTIONS" ∷ "PROPFIND" ∷ [])
]

-- `scope["required_access_role"]`
unfoldable pub required_role : App → Request → Role
unfolding path_role
required_role app req =
    if starts_with_any req.full_path
        ("/rpc" ∷ "/monitoring" ∷ "/messagebus" ∷ "/file-transfer" ∷ [])
      || (starts_with_any req.full_path ("/depot" ∷ "/boot" ∷ []) && reads req)
    then authenticated
    else path_role app req

abbrev pub is_web : Request → Bool
is_web req = req.scope_type == "http" || req.scope_type == "websocket"

abbrev pub is_role : Role → Role → Bool
is_role public public = true
is_role authenticated authenticated = true
is_role admin admin = true
is_role _ _ = false

module _ (env : Env) (config : Config) where
  abbrev pub log_in_with : Request → Outcome Error (String × String) → Act (Unit {0})
  log_in_with req (raised e) st = (raised e, st)
  log_in_with req (done (name, password)) st =
      authenticate env config req.peer_cert_cn (some name) (some password) none
        (lookup "x-opsi-mfa-otp" req.headers) st

  unfoldable pub log_in_if_needed : Request → Act (Unit {0})
  unfolding get_basic_auth
  log_in_if_needed req st =
      if st.0.username == "" || not st.0.authenticated
      then log_in_with req (get_basic_auth env config req.headers) st
      else (done tt, st)

  -- `check_access`, for a request that has a session.
  unfoldable pub check_access : Role → Request → Act (Unit {0})
  unfolding log_in_if_needed
  check_access role req (s, w) =
      if is_role role public
      then (done tt, (s, w))
      else (do
        log_in_if_needed req
        λ st. raise_if (is_role role admin && not st.0.is_admin) permission_denied st)
          (s, w)

  -- A user that may not change files under /depot, and does.
  abbrev pub lacks_file_admin : App → Request → Session → Bool
  lacks_file_admin app req s =
      is_role (path_role app req) admin
      && elim s.host [ none ↦ true | some h ↦ false ]
      && is_under "/depot" req
      && not (contains config.file_admin_group s.user_groups)

  -- The check of the file admin group.
  unfoldable pub check_file_admin : App → Request → Act (Unit {0})
  check_file_admin app req st = raise_if (lacks_file_admin app req st.0) permission_denied st

  -- The session goes back to the manager, also where an exception is raised.
  abbrev pub answered :
      Role
      → Manager
      → Outcome Error (Unit {0}) × (Session × World)
      → Outcome Error Answer × (Manager × World)
  answered role m (raised e, (s, w)) = (raised e, (put_back s m, w))
  answered role m (done u, (s, w)) = (done (calls_app role (some s)), (put_back s m, w))

  -- The scope after the addon of the path, if there is one: whether it has answered, the role and the
  -- session.
  abbrev pub after_addon : App → Request → Option Session → Bool × (Role × Option Session)
  after_addon app req session =
      if is_under "/addons" req
      then app.addon req (required_role app req) session
      else (false, (required_role app req, session))

  -- What is asked for the role of the scope. Without a session, any role but the public one ends in an
  -- exception.
  unfoldable pub ask : App → Request → Role → Option Session → Shared Answer
  unfolding check_access check_file_admin
  ask app req role none (m, w) =
      if is_role role public
      then (done (calls_app role none), (m, w))
      else (raised assertion_error, (m, w))
  ask app req role (some s) (m, w) =
      answered role m ((do check_access role req; check_file_admin app req) (s, w))

  abbrev pub put_back_any : Option Session → Manager → Manager
  put_back_any none m = m
  put_back_any (some s) m = put_back s m

  abbrev pub go_on : App → Request → Bool × (Role × Option Session) → Shared Answer
  go_on app req (true, (role, session)) (m, w) = (done addon_answered, (put_back_any session m, w))
  go_on app req (false, (role, session)) st = ask app req role session st

  -- From the addons on.
  unfoldable pub admit : App → Request → Option Session → Shared Answer
  admit app req session st = go_on app req (after_addon app req session) st

  abbrev pub is_local : String → Bool
  is_local addr = addr == "127.0.0.1" || addr == "::1"

  -- The exception under maintenance.
  abbrev pub maintenance_error : Option Maintenance → Request → Option Error
  maintenance_error none req = none
  maintenance_error (some m) req =
      if any (env.ip_address_in_network req.client_addr) m.address_exceptions
      then none
      else some (http_exception 503 (("Retry-After", env.decimal m.retry_after) ∷ []))

  -- Overload, maintenance and the networks of the clients, in this order.
  unfoldable pub check_service : ℕ → App → Request → Outcome Error (Unit {0})
  check_service time_left app req =
      if ltb 0 time_left && not (is_local req.client_addr)
      then raised (http_exception 503 (("Retry-After", env.decimal time_left) ∷ []))
      else elim (maintenance_error app.maintenance req) [
        | some e ↦ raised e
        | none ↦ check_network env config req.client_addr
      ]

  -- From the role on.
  unfoldable pub with_session : App → Request → Shared Answer
  unfolding admit get_session_id_from_headers
  with_session app req st =
      let id = get_session_id_from_headers env config req.headers in
      if not (is_role (required_role app req) public) || truthy id
      then (do s ← get_session env config req.client_addr req.headers id; admit app req (some s)) st
      else admit app req none st

  -- `handle_request`, and the state of the middleware after it.
  unfoldable pub handle_request :
      App → Request → Manager × World → App × (Outcome Error Answer × (Manager × World))
  unfolding check_overload check_service with_session
  handle_request app req (m, w) =
      let (left, app') = check_overload w.clock app in
      (
        app',
        elim (check_service left app req) [
          | raised e ↦ (raised e, (m, w))
          | done u ↦
              if is_web req
              then with_session app req (m, w)
              else (done (calls_app (required_role app req) none), (m, w))
        ],
      )
