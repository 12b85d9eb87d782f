-- ===== src/Sessions/Request/Access.antt =====
-- Which requests reach the application.
use opsiconfd.Prelude.{Bool, Option, ◌⊎◌, ◌≡◌, none, some, true, false, not, ◌||◌, ◌==◌}
use opsiconfd.Prelude.Effect.{Outcome, Ends}
use opsiconfd.Sessions.Data.{Session}
use opsiconfd.Sessions.World.{Error, World, Config, Env}
use opsiconfd.Sessions.Manager.{Manager}
use opsiconfd.Sessions.Request.{
  Role, public, authenticated, admin, Request, App, Answer, calls_app, addon_answered,
  lacks_file_admin, is_under, required_role,
}

-- What a role asks of a session.
abbrev pub Holds : Role → Session → Type 0
Holds public s = Unit
Holds authenticated s = (s.username == "" || not s.authenticated) ≡ false
Holds admin s = ((s.username == "" || not s.authenticated) ≡ false) × (s.is_admin ≡ true)

abbrev Held : Role → Session × World → Type 0
Held role st = Holds role st.0

-- The role that a request is asked for: that of its path, or the one that the addon of its path, which has
-- not answered, has set.
abbrev pub IsRoleOf : App → Request → Role → Type 0
IsRoleOf app req role =
    (role ≡ required_role app req)
    ⊎ ((is_under "/addons" req ≡ true)
        × (s : Option Session) × ((app.addon req (required_role app req) s).0 ≡ false)
        × (role ≡ (app.addon req (required_role app req) s).1.0))

-- The answers that a request may get.
abbrev pub Admitted : Env → Config → App → Request → Answer → Type 0
Admitted env config app req addon_answered =
    (is_under "/addons" req ≡ true)
    × (s : Option Session) × ((app.addon req (required_role app req) s).0 ≡ true)
Admitted env config app req (calls_app role none) = IsRoleOf app req role × (role ≡ public)
Admitted env config app req (calls_app role (some s)) =
    IsRoleOf app req role × Holds role s × (lacks_file_admin env config app req s ≡ false)

module _ (env : Env) (config : Config) (req : Request) where
  -- What the application may rely on.
  abbrev Allowed : App → Role → Session × World → Type 0
  Allowed app role st = Holds role st.0 × (lacks_file_admin env config app req st.0 ≡ false)

  abbrev Answers : App → Outcome Error Answer × (Manager × World) → Type 0
  Answers app = Ends (λ a _. Admitted env config app req a) (λ _ _. Unit)

  -- What a scope is after the addon.
  abbrev IsScope : App → Bool × (Role × Option Session) → Type 0
  IsScope app (true, scope) =
      (is_under "/addons" req ≡ true)
      × (s : Option Session) × ((app.addon req (required_role app req) s).0 ≡ true)
  IsScope app (false, (role, session)) = IsRoleOf app req role
