-- ===== src/Sessions/Start/Bounds.antt =====
-- Bounds of new sessions: their age, and how many of them an address has.
use opsiconfd.Prelude.{
  ℕ, suc, ◌*◌, ◌≤◌, String, [], ◌∷◌, Option, none, some, ◌&&◌, arith, if◌then◌else◌, max,
}
use opsiconfd.Prelude.Dict.{Dict}
use text.Mathlib.Text.{starts_with}
use opsiconfd.Sessions.Data.{Session, set_max_age, set_modified}
use opsiconfd.Sessions.World.{Row, World, Config, Env}
use opsiconfd.Sessions.Start.{Headers, is_valid_row, accept_lifetime, set_headers, new_session}

module _ (env : Env) where
  accept_lifetime-max_age :
      (v : Option String) (s : Session) (limit : ℕ)
      → 3600 * 24 ≤ limit
      → s.max_age ≤ limit
      → (accept_lifetime env v s).max_age ≤ limit
  unfolding accept_lifetime set_max_age set_modified
  accept_lifetime-max_age none s limit h k = k
  accept_lifetime-max_age (some v) s limit h k = ground arith

  -- A new session lives a day or the configured lifetime at most, whatever its headers ask for.
  pub new_session-max_age :
      (config : Config) (addr : String) (headers : Headers) (id : Option String)
      → (new_session env config addr headers id).max_age ≤ max (3600 * 24) config.session_lifetime
  unfolding new_session set_headers
  new_session-max_age config addr [] id = omega arith
  new_session-max_age config addr (h ∷ hs) id =
      let bound = max (3600 * 24) config.session_lifetime in
      let day : 3600 * 24 ≤ bound = omega arith in
      let lifetime : config.session_lifetime ≤ bound = omega arith in
      accept_lifetime-max_age _ _ bound day lifetime

  -- The sessions in redis that the scan for an address finds and that are still valid.
  abbrev pub valid_rows : String → ℕ → Dict Row → ℕ
  valid_rows prefix clock [] = 0
  valid_rows prefix clock ((key, row) ∷ rows) =
      let rest = valid_rows prefix clock rows in
      if starts_with key prefix && is_valid_row env clock row then suc rest else rest
