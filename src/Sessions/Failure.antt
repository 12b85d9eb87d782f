-- ===== src/Sessions/Failure.antt =====
-- `handle_request_exception` of opsiconfd/session.py: the answer to a request that raised. The dict
-- `AUTH_HEADERS` is one object for all requests, so its content is a state that the handler changes.
pub mod Cookies
use opsiconfd.Prelude.{
  ℕ, String, List, [], ◌∷◌, ◌++◌, Option, none, some, Bool, true, false, not, ◌&&◌, ◌||◌,
  if◌then◌else◌, ◌==◌, eqb, any,
}
use Prim.Native.String.{◌++◌ as ◌+++◌}
use text.Mathlib.Text.{starts_with, find?}
use opsiconfd.Prelude.Text.{contains}
use opsiconfd.Prelude.Split.{cut, strip_end, take_text}
use opsiconfd.Prelude.Dict.{Dict, lookup, insert}
use opsiconfd.Sessions.Data.{Session}
use opsiconfd.Sessions.World.{
  Error, authentication_error, permission_denied, connection_refused, validation_error,
  http_exception, Env,
}
use opsiconfd.Sessions.Start.{Headers, add_cookie_to_headers}
use opsiconfd.Sessions.Request.{Request}

-- What is sent. A websocket that is not open yet gets an answer to its HTTP request first.
pub data Reply : Type 0 where
  addon_answered : Reply
  close_websocket : (opening : Option (ℕ × Headers)) (code : ℕ) (reason : String) → Reply
  json_rpc : (status : ℕ) (headers : Headers) (error : String) (version_2 : Bool) → Reply
  json plain : (status : ℕ) (headers : Headers) (error : String) → Reply
  redirect : (url : String) (headers : Headers) → Reply

-- `AUTH_HEADERS` at the start.
abbrev pub auth_headers : Headers
auth_headers = ("WWW-Authenticate", "Basic realm=\"opsi\", charset=\"UTF-8\"") ∷ []

-- The request as the handler of exceptions reads it: `message` is `str(err)`, or the detail of an
-- `HTTPException`, `session` the one of the scope, and `shares_headers` says whether the headers of an
-- `HTTPException` are the object `AUTH_HEADERS`, as they are where `get_basic_auth` raised it.
pub record Failed : Type 0 where
  pub request : Request
  pub error : Error
  pub message : String
  pub session : Option Session
  pub jsonrpc20 : Bool
  pub shares_headers : Bool
  pub addon_answers : Bool

module _ (env : Env) where
  abbrev is_ajax : Headers → Bool
  is_ajax headers = elim (lookup "x-requested-with" headers) [
    | none ↦ false
    | some v ↦ env.lower v == "xmlhttprequest"
  ]

  -- Whether the headers of the answer are `AUTH_HEADERS`.
  unfoldable pub uses_shared : Failed → Bool
  uses_shared f = elim f.error [
    | authentication_error ↦ not (is_ajax f.request.headers)
    | permission_denied ↦ not (is_ajax f.request.headers)
    | http_exception status headers ↦ f.shares_headers
    | _ ↦ false
  ]

  -- The status, the headers that are the answer's own, and the error for an exception.
  pub describe : Failed → ℕ × Headers × String
  describe f = elim f.error [
    | authentication_error ↦ (401, [], "Authentication error")
    | permission_denied ↦ (401, [], "Permission denied")
    | connection_refused ↦ (403, [], f.message)
    | validation_error ↦ (422, [], f.message)
    | http_exception status headers ↦ (status, headers, f.message)
    | _ ↦ (500, [], f.message)
  ]

  abbrev text_of : Option String → String
  text_of none = "None"
  text_of (some v) = v

  -- The code and the reason that a websocket is closed with.
  pub close_code : ℕ → Headers → String → ℕ × String
  close_code status headers error =
      if eqb status 500
      then (1011, error)
      else if eqb status 503
      then (
        1013,
        take_text 100 error +++ "\nRetry-After: " +++ text_of (lookup "Retry-After" headers),
      )
      else (1008, error)

  abbrev wants_json : Headers → Bool
  wants_json headers = elim (lookup "accept" headers) [
    | none ↦ false
    | some v ↦ elim (find? v "application/json") [ none ↦ false | some i ↦ true ]
  ]

  abbrev before_hash : String → String
  before_hash s = elim (cut b'#' s) [ none ↦ s | some (a, b) ↦ a ]

  abbrev is_admin_page : String → Bool
  is_admin_page path =
      not (path == "")
      && contains (strip_end b'/' (before_hash (env.lower path))) ("/admin" ∷ "/admin/grafana" ∷ [])

  -- The answer to an HTTP request.
  pub http_reply : Failed → ℕ → Headers → String → Reply
  http_reply f status headers error =
      if starts_with f.request.full_path "/rpc"
      then json_rpc status headers error f.jsonrpc20
      else if wants_json f.request.headers
      then json status headers error
      else if eqb status 401 && is_admin_page f.request.full_path
      then redirect ("/login?redirect=" +++ f.request.full_path) headers
      else plain status headers error

  abbrev pub with_cookie : ℕ → Option Session → Headers → Headers
  with_cookie clock none headers = headers
  with_cookie clock (some s) headers = add_cookie_to_headers env clock s headers

  abbrev is_upgrade : Headers → Bool
  is_upgrade headers = elim (lookup "upgrade" headers) [ none ↦ false | some v ↦ v == "websocket" ]

  -- The headers from the error on.
  pub reply_headers : Failed → Headers → Headers
  unfolding describe uses_shared
  reply_headers f shared =
      let (status, own, error) = describe f in
      insert "x-opsi-error" (take_text 64 error) (if uses_shared f then shared else own)

  -- `handle_request_exception`, and the content of `AUTH_HEADERS` after it.
  pub handle_request_exception : ℕ → Failed → Headers → Reply × Headers
  unfolding describe close_code http_reply uses_shared reply_headers
  handle_request_exception clock f shared =
      if starts_with f.request.full_path "/addons" && f.addon_answers
      then (addon_answered, shared)
      else let (status, own, error) = describe f in
        let headers = reply_headers f shared in
        if f.request.scope_type == "websocket"
        then (
          close_websocket (if is_upgrade f.request.headers then some (status, headers) else none)
              (close_code status headers error).0 (close_code status headers error).1,
          if uses_shared f then headers else shared,
        )
        else let headers' = with_cookie clock f.session headers in
          (http_reply f status headers' error, if uses_shared f then headers' else shared)
