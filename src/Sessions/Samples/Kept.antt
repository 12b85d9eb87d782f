-- ===== src/Sessions/Samples/Kept.antt =====
-- Tests of what is kept: sessions in the manager and in redis, and blocked addresses.
use opsiconfd.Prelude.{
  All, List, if◌then◌else◌, eqb, map, ℕ, String, ◌≡◌, ◌≢◌, ◌⊎◌, refl, [], ◌∷◌, Option, none, some,
  true, false, ◌+◌, ◌*◌, ◌≤◌, ◌<◌, max, arith, ◌==◌,
}
use Prim.Native.String.{◌++◌ as ◌+++◌}
use opsiconfd.Prelude.Dict.{lookup}
use opsiconfd.Prelude.Text.{contains}
use opsiconfd.Prelude.Split.{count_char}
use opsiconfd.Prelude.Effect.{Outcome, done, raised}
use opsiconfd.Sessions.World.{Env, Row, Error, permission_denied, connection_refused, World}
use opsiconfd.Sessions.Data.{
  totp, Session, Attribute, username, attribute_name, set_last_used, set_modified,
}
use opsiconfd.Sessions.Wire.{Value, deserialize, all_attributes, wire, serialize}
use opsiconfd.Sessions.Store.{
  own_key, key_of, row_of, write_row, store, get_version_from_redis, refresh_from, refresh,
}
use opsiconfd.Sessions.Store.Synced.{IsSynced, store-synced}
use opsiconfd.Sessions.Start.{
  get_cookie, set_headers, accept_lifetime, new_session, init_new_session,
}
use opsiconfd.Sessions.Start.Bounds.{new_session-max_age}
use opsiconfd.Sessions.Manager.{Manager, put_back, reuse, get_session}
use opsiconfd.Sessions.Manager.Bound.{get_session-own}
use opsiconfd.Sessions.Checks.{
  is_blocked, times_of, last_count, check_blocked, check_admin_networks,
}
use opsiconfd.Sessions.Checks.Blocked.{check_blocked-refuses, check_admin_networks-unnoticed}
use opsiconfd.Sessions.Headers.{split_credentials}
use opsiconfd.Sessions.Request.Credentials.{
  split_credentials-join, split_credentials-hardware_address, split_credentials-five_colons,
}
use opsiconfd.Sessions.Failure.{Failed, auth_headers, uses_shared, handle_request_exception}
use opsiconfd.Sessions.Failure.Cookies.{cookie_of, IsShared, handle_request_exception-leaks}
use opsiconfd.Sessions.Wire.RoundTrip.{IsValueOf, IsReadBack, deserialize-serialize}
use opsiconfd.Sessions.Samples.{
  pc1, request, env, config, addr, key, world, session, admin_session, with_admin, stored,
}

abbrev resumed : Outcome Error Session × (Manager × World)
resumed = get_session env config addr [] (some "u0") (with_admin, stored)

-- The session of the cookie, used at this time.
abbrev found : Session
found = record admin_session { last_used = 1000 }

resumed_done : resumed ≡ (done found, resumed.1)
unfolding lookup own_key key_of get_version_from_redis refresh_from refresh set_last_used
    set_modified set_headers accept_lifetime put_back reuse get_session
resumed_done = refl

get_session-own_example :
    ((found.client_addr == addr) ≡ true)
    × ((found.persistent ≡ false) ⊎ ((k : String) × (lookup k resumed.1.0.sessions ≡ some found)))
get_session-own_example =
    get_session-own env config addr [] (some "u0") (with_admin, stored) found resumed.1 resumed_done

abbrev begun : Outcome Error (Unit {0}) × (Session × World)
begun = init_new_session env config (session, world)

new_session-max_age_example :
    (new_session env config addr (("x-opsi-session-lifetime", "120") ∷ []) none).max_age
    ≤ max (3600 * 24) 120
new_session-max_age_example =
    new_session-max_age env config addr (("x-opsi-session-lifetime", "120") ∷ []) none

-- One failed attempt is enough in the configuration of the tests.
abbrev failing : World
failing = record world { failed_auth = (addr, 1000) ∷ [] }

abbrev soon : ℕ
soon = 1100

soon_before : soon < 1000 + 120
soon_before = omega arith

check_blocked-refuses_example :
    let later : World = record (check_blocked env config addr (session, failing)).1.1 {
      clock = soon;
    } in
    check_blocked env config addr (admin_session, later)
    ≡ (raised connection_refused, (admin_session, later))
unfolding is_blocked times_of last_count lookup
check_blocked-refuses_example =
    check_blocked-refuses env config addr session failing refl refl soon soon_before admin_session

-- The administrator's session, with the groups that redis has.
check_admin_networks-unnoticed_example :
    let s = check_admin_networks env config admin_session in
    (s.is_admin ≡ false)
    × (contains config.admin_group s.user_groups ≡ false)
    × (lookup "user_groups" (row_of key (write_row env true key s stored).1)
        ≡ lookup "user_groups" (row_of key stored))
unfolding lookup
check_admin_networks-unnoticed_example =
    check_admin_networks-unnoticed env config admin_session stored key refl refl refl refl refl

-- The session before its last changes, and the same with the name of the user not stored yet.
abbrev stored_row : Row
stored_row = serialize env admin_session all_attributes

abbrev behind : World
behind = record world { rows = (key_of env addr "u0", stored_row) ∷ [] }

abbrev renamed : Session
renamed = record admin_session { username = "root"; modifications = username ∷ [] }

behind-IsSynced : IsSynced env renamed (row_of (key_of env addr "u0") behind)
unfolding lookup serialize wire key_of
behind-IsSynced username h = cc
behind-IsSynced a h = refl

store-synced_example :
    (s' : Session) × (w' : World) × (store env true (renamed, behind) ≡ (done tt, (s', w')))
    × (s'.modifications ≡ [])
    × ((a : Attribute)
        → lookup (attribute_name a) (row_of (key_of env s'.client_addr "u0") w')
          ≡ some (wire env s' a))
store-synced_example =
    store-synced env true renamed behind "u0" (refl, refl) refl refl behind-IsSynced

split_credentials-join_example :
    split_credentials ("admin" +++ ":" +++ "a:b") ≡ done ("admin", "a:b")
unfolding count_char
split_credentials-join_example = split_credentials-join "admin" "a:b" refl (λ five. omega arith)

hardware_address_read :
    split_credentials ("00:11:22:33:44:55" +++ ":" +++ "key") ≡ done ("00:11:22:33:44:55", "key")
unfolding count_char
hardware_address_read = split_credentials-hardware_address "00:11:22:33:44:55" "key" refl refl

five_colons_read :
    split_credentials ("admin" +++ ":" +++ "a:b:c:d:e:f") ≢ done ("admin", "a:b:c:d:e:f")
unfolding count_char
five_colons_read = split_credentials-five_colons "admin" "a:b:c:d:e:f" refl refl

-- Two requests that are refused, of the session of the administrator and of no session.
abbrev refused : Option Session → Failed
refused s = record {
  request = request "/admin";
  error = permission_denied;
  message = "";
  session = s;
  jsonrpc20 = false;
  shares_headers = false;
  addon_answers = false;
}

refused-IsShared : (s : Option Session) → IsShared env (refused s)
unfolding uses_shared lookup
refused-IsShared s = (refl, refl, refl)

handle_request_exception-leaks_example :
    cookie_of
      (handle_request_exception env 1001
        (refused none)
        (handle_request_exception env 1000 (refused (some admin_session)) auth_headers).1).0
    ≡ some "opsiconfd-session=u0; SameSite=Strict; Secure; path=/; Max-Age=120"
unfolding get_cookie lookup
handle_request_exception-leaks_example =
    handle_request_exception-leaks env 1000 1001 (refused (some admin_session)) (refused none)
      auth_headers admin_session
      "opsiconfd-session=u0; SameSite=Strict; Secure; path=/; Max-Age=120"
      (refused-IsShared (some admin_session)) (refused-IsShared none) refl refl refl

-- The session of the host, which gave a one-time password too.
abbrev complete : Session
complete = record admin_session { host = some pc1; auth_methods = totp ∷ [] }

-- `str` and `int` of the numbers of the session.
abbrev reading_env : Env
reading_env = record env {
  decimal = λ n. if eqb n 120 then "120" else if eqb n 1000 then "1000" else "0";
  int_of = λ s.
      if s == "120"
      then some 120
      else if s == "1000"
      then some 1000
      else if s == "1"
      then some 1
      else if s == "0"
      then some 0
      else none;
}

complete-IsReadBack : IsReadBack reading_env complete
complete-IsReadBack = record {
  groups = refl;
  method_names = refl;
  its_host = (refl, refl);
  max_age_read = refl;
  created_read = refl;
  last_used_read = refl;
  messagebus_last_used_read = refl;
  one = refl;
  zero = refl;
}

deserialize-serialize_example :
    (values : List (Attribute × Value)) × (deserialize reading_env
        (serialize reading_env complete all_attributes)
      ≡ some values)
    × (map (λ (e : Attribute × Value). e.0) values ≡ all_attributes)
    × All (λ (e : Attribute × Value). IsValueOf reading_env complete e.0 e.1) values
deserialize-serialize_example =
    deserialize-serialize reading_env complete complete-IsReadBack all_attributes
