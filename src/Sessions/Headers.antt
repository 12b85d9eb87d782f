-- ===== src/Sessions/Headers.antt =====
-- What opsiconfd/session.py reads of the headers of a request: the session id and the credentials.
use opsiconfd.Prelude.{
  String, List, [], ◌∷◌, Option, none, some, false, not, if◌then◌else◌, ◌==◌, eqb,
}
use text.Mathlib.Text.{starts_with}
use opsiconfd.Prelude.Split.{cut, cut_last, count_char, split, drop_text}
use opsiconfd.Prelude.Dict.{lookup}
use opsiconfd.Prelude.Effect.{Outcome, done, raised}
use opsiconfd.Sessions.World.{Error, value_error, http_exception, Config, Env}
use opsiconfd.Sessions.Start.{Headers}

abbrev credentials : Option (String × String) → Outcome Error (String × String)
credentials none = raised value_error
credentials (some c) = done c

-- The name and the password in a text; six colons are those of a hardware address.
unfoldable pub split_credentials : String → Outcome Error (String × String)
split_credentials auth =
    credentials (if eqb (count_char b':' auth) 6 then cut_last b':' auth else cut b':' auth)

module _ (env : Env) (config : Config) where
  abbrev session_cookie : Option (String × String) → Option String
  session_cookie none = none
  session_cookie (some (name, v)) =
      if env.lower (env.strip name) == "opsiconfd-session"
      then some (env.lower (env.strip v))
      else none

  -- The first cookie with the name of the session cookie.
  unfoldable pub find_cookie : List String → Option String
  find_cookie [] = none
  find_cookie (c ∷ cs) = elim (session_cookie (cut b'=' (env.strip c))) [
    | none ↦ find_cookie cs
    | some id ↦ some id
  ]

  -- `get_session_id_from_headers`
  unfoldable pub get_session_id_from_headers : Headers → Option String
  unfolding find_cookie
  get_session_id_from_headers headers = elim (lookup "cookie" headers) [
    | none ↦ none
    | some cookies ↦ if cookies == "" then none else find_cookie (split b';' cookies)
  ]

  -- The content of the headers that the exception is made with, at the start.
  abbrev headers_401 : Headers → Headers
  headers_401 headers =
      if elim (lookup "x-requested-with" headers) [
        | none ↦ false
        | some v ↦ env.lower v == "xmlhttprequest"
      ]
      then []
      else ("WWW-Authenticate", "Basic realm=\"opsi\", charset=\"UTF-8\"") ∷ []

  -- `get_basic_auth`
  unfoldable pub get_basic_auth : Headers → Outcome Error (String × String)
  unfolding split_credentials
  get_basic_auth headers = elim (lookup "authorization" headers) [
    | none ↦ raised (http_exception 401 (headers_401 headers))
    | some v ↦
        if not (starts_with v "Basic ")
        then raised (http_exception 401 (headers_401 headers))
        else elim (env.decode_base64 (drop_text 6 v)) [
          | none ↦ raised value_error
          | some auth ↦ split_credentials auth
        ]
  ]
