-- ===== src/Sessions/Samples/Logins.antt =====
-- Tests of logins and of access to the application.
use opsiconfd.Prelude.{ℕ, String, ◌≡◌, refl, List, ◌∷◌, none, some, false}
use opsiconfd.Prelude.Dict.{lookup}
use opsiconfd.Prelude.Text.{contains}
use opsiconfd.Prelude.Split.{count_char, strip_end}
use opsiconfd.Prelude.Effect.{Outcome, done, raised, Ends}
use opsiconfd.Sessions.World.{Error, authentication_error, World}
use opsiconfd.Sessions.Data.{
  Session, set_modified, set_authenticated, set_username, add_auth_method,
}
use opsiconfd.Sessions.Manager.{Manager}
use opsiconfd.Sessions.Checks.{
  is_blocked, times_of, last_count, check_blocked, check_min_configed_version,
}
use opsiconfd.Sessions.Login.{
  accept_user, find_otp, check_user_certificate, check_module, authenticate_user_auth_module,
  authenticate_user, log_in, try_authenticate, authenticate,
}
use opsiconfd.Sessions.HostLogin.{
  host_search, only_host, check_host_certificate, check_host_password, accept_host, confirm_host,
  authenticate_host,
}
use opsiconfd.Sessions.Login.Hosts.{LetIn, NotLetIn, authenticate_host-LetIn}
use opsiconfd.Sessions.Login.Refused.{authenticate-refused}
use opsiconfd.Sessions.Request.{App, Answer, addon_answered, handle_request}
use opsiconfd.Sessions.Samples.{env, config, world, session, with_admin, stored, app, request}

abbrev answered : App × (Outcome Error Answer × (Manager × World))
answered = handle_request env config app (request "/admin") (with_admin, stored)

abbrev answer_of : Outcome Error Answer → Answer
answer_of (done a) = a
answer_of (raised e) = addon_answered

-- The session in which the host gives its key.
abbrev host_session : Session
host_session = record session { username = "pc1.opsi.test"; password = some "0123" }

authenticate_host-LetIn_example :
    Ends
      (λ _. LetIn env config none (some "0123"))
      (NotLetIn env config none (some "0123"))
      (authenticate_host env config none (host_session, world))
authenticate_host-LetIn_example = authenticate_host-LetIn env config none host_session world refl

-- The host with its key is let in.
let_in : (authenticate_host env config none (host_session, world)).0 ≡ done tt
unfolding set_username set_modified add_auth_method strip_end host_search only_host
    check_host_certificate check_host_password accept_host confirm_host authenticate_host contains
let_in = refl

abbrev guess : Outcome Error (Unit {0}) × (Session × World)
guess = authenticate env config none (some "eve") (some "wrong") none none (session, world)

guess_raised : guess ≡ (raised authentication_error, guess.1)
unfolding set_username set_modified set_authenticated add_auth_method contains count_char is_blocked
    times_of last_count check_blocked check_min_configed_version find_otp check_user_certificate
    check_module authenticate_user_auth_module accept_user authenticate_user log_in try_authenticate
    authenticate lookup
guess_raised = refl

authenticate-refused_example :
    (guess.1.0.authenticated ≡ false)
    × (earlier : List (String × ℕ)) × (guess.1.1.failed_auth
        ≡ (env.ip_address_to_redis_key guess.1.0.client_addr, guess.1.1.clock) ∷ earlier)
authenticate-refused_example =
    authenticate-refused env config none (some "eve") (some "wrong") none none (session, world)
      guess.1 guess_raised
