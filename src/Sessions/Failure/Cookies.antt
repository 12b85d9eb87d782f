-- ===== src/Sessions/Failure/Cookies.antt =====
-- Which cookie an answer sets.
use opsiconfd.Prelude.{
  ℕ, String, ◌≡◌, refl, ap, ◌∙◌, Option, none, some, true, false, ◌&&◌, arith, ◌==◌,
}
use opsiconfd.Prelude.Dict.{lookup, lookup-insert}
use opsiconfd.Prelude.Split.{take_text}
use opsiconfd.Sessions.Data.{Session}
use opsiconfd.Sessions.World.{Env}
use opsiconfd.Sessions.Start.{Headers, get_cookie, add_cookie_to_headers}
use opsiconfd.Sessions.Request.{is_under}
use opsiconfd.Sessions.Failure.{
  Reply, addon_answered, close_websocket, json_rpc, json, plain, redirect, Failed, uses_shared,
  describe, http_reply, reply_headers, with_cookie, handle_request_exception,
}

-- The cookie that an HTTP answer sets.
abbrev pub cookie_of : Reply → Option String
cookie_of addon_answered = none
cookie_of (close_websocket opening code reason) = none
cookie_of (json_rpc status headers error v) = lookup "set-cookie" headers
cookie_of (json status headers error) = lookup "set-cookie" headers
cookie_of (plain status headers error) = lookup "set-cookie" headers
cookie_of (redirect url headers) = lookup "set-cookie" headers

-- A failed HTTP request that is answered with the shared headers.
abbrev pub IsShared : Env → Failed → Type 0
IsShared env f =
    ((f.request.scope_type == "websocket") ≡ false)
    × (f.addon_answers ≡ false)
    × (uses_shared env f ≡ true)

module _ (env : Env) where
  cookie_of-http_reply :
      (f : Failed) (status : ℕ) (headers : Headers) (error : String)
      → cookie_of (http_reply env f status headers error) ≡ lookup "set-cookie" headers
  unfolding http_reply
  cookie_of-http_reply f status headers error = ground arith

  lookup-with_cookie :
      (clock : ℕ) (session : Option Session) (headers : Headers) (c : String)
      → lookup "set-cookie" headers ≡ some c
      → lookup "set-cookie" (with_cookie env clock session headers) ≡ some c
  unfolding add_cookie_to_headers
  lookup-with_cookie clock none headers c h = h
  lookup-with_cookie clock (some s) headers c h = ground arith

  reply_headers-cookie :
      (f : Failed) (auth_headers : Headers)
      → uses_shared env f ≡ true
      → lookup "set-cookie" (reply_headers env f auth_headers) ≡ lookup "set-cookie" auth_headers
  unfolding reply_headers
  reply_headers-cookie f auth_headers shared =
      rw shared
        (lookup-insert "x-opsi-error" "set-cookie" (take_text 64 (describe env f).2) auth_headers)

  -- What is sent, and what the shared headers are then.
  handle-http :
      (clock : ℕ) (f : Failed) (auth_headers : Headers)
      → IsShared env f
      → let headers = with_cookie env clock f.session (reply_headers env f auth_headers) in
        handle_request_exception env clock f auth_headers
        ≡ (http_reply env f (describe env f).0 headers (describe env f).2, headers)
  unfolding handle_request_exception
  handle-http clock f auth_headers (http, no_addon, shared) =
      let no_answer : (is_under "/addons" f.request && f.addon_answers) ≡ false = ground arith in
      rw no_answer (rw http (rw shared refl))

  handle-cookie :
      (clock : ℕ) (f : Failed) (auth_headers : Headers) (c : String)
      → IsShared env f
      → lookup "set-cookie" auth_headers ≡ some c
      → cookie_of (handle_request_exception env clock f auth_headers).0 ≡ some c
  handle-cookie clock f auth_headers c shared h =
      ap (λ r. cookie_of r.0) (handle-http clock f auth_headers shared)
      ∙ cookie_of-http_reply f _ _ _
      ∙ lookup-with_cookie clock f.session (reply_headers env f auth_headers) c
          (reply_headers-cookie f auth_headers shared.2 ∙ h)

  with_cookie-empty :
      (clock : ℕ) (s : Session) (headers : Headers) (c : String)
      → get_cookie env clock s ≡ some c
      → lookup "set-cookie" headers ≡ none
      → lookup "set-cookie" (add_cookie_to_headers env clock s headers) ≡ some c
  unfolding add_cookie_to_headers
  with_cookie-empty clock s headers c cookie empty =
      ground (arith, lookup-insert "set-cookie" "set-cookie" c headers)

  handle-shared :
      (clock : ℕ) (f : Failed) (auth_headers : Headers) (s : Session) (c : String)
      → IsShared env f
      → f.session ≡ some s
      → get_cookie env clock s ≡ some c
      → lookup "set-cookie" auth_headers ≡ none
      → lookup "set-cookie" (handle_request_exception env clock f auth_headers).1 ≡ some c
  handle-shared clock f auth_headers s c shared session cookie empty =
      ap (λ r. lookup "set-cookie" r.1) (handle-http clock f auth_headers shared)
      ∙ ap (λ o. lookup "set-cookie" (with_cookie env clock o (reply_headers env f auth_headers)))
          session
      ∙ with_cookie-empty clock s (reply_headers env f auth_headers) c cookie
          (reply_headers-cookie f auth_headers shared.2 ∙ empty)

  -- A request `f` that is refused with the shared headers, in which no cookie is, leaves the cookie of
  -- its session there: a later request `g` that is refused with them, whatever its client and its
  -- session are, is sent the cookie of the session of `f`.
  pub handle_request_exception-leaks :
      (clock later : ℕ) (f g : Failed) (auth_headers : Headers) (s : Session) (c : String)
      → IsShared env f
      → IsShared env g
      → f.session ≡ some s
      → get_cookie env clock s ≡ some c
      → lookup "set-cookie" auth_headers ≡ none
      → cookie_of
          (handle_request_exception env later g
            (handle_request_exception env clock f auth_headers).1).0
        ≡ some c
  handle_request_exception-leaks clock later f g auth_headers s c f_shared g_shared session cookie
        empty =
      handle-cookie later g (handle_request_exception env clock f auth_headers).1 c g_shared
        (handle-shared clock f auth_headers s c f_shared session cookie empty)
