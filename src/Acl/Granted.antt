-- ===== src/Acl/Granted.antt =====
-- Which entries a session gets.
use opsiconfd.Prelude.{
  String, List, [], ◌∷◌, ◌≡◌, refl, Option, none, some, Bool, true, false, All, subst, sym, ap, ◌⊎◌,
  inl, inr, Bool-cases, eq_iff, not, ◌||◌, ◌==◌,
}
use opsiconfd.Prelude.Text.{eq_option, truthy, contains}
use opsiconfd.Prelude.Effect.{Outcome, done, raised}
use opsiconfd.Sessions.Data.{Session}
use opsiconfd.Sessions.World.{Error, permission_denied}
use opsiconfd.Sessions.Store.{is_empty}
use opsiconfd.Acl.{
  AceType, all, self, opsi_depotserver, opsi_client, sys_group, sys_user, Ace, Acl, UserType,
  a_user, a_client, a_depot, user_type, names_user, names_group, when_true, prepend, or_denied,
  pick_of, pick_all, entries, get_ace,
}

-- An entry with no id or an empty one is for all of its kind, and one with an id for the user or host with
-- that name.
abbrev pub IsNamed : Session → Ace → Type 0
IsNamed s a = (a.id ≡ none) ⊎ ((a.id ≡ some "") ⊎ (a.id ≡ some s.username))

abbrev pub IsInGroup : Session → Ace → Type 0
IsInGroup s a =
    (a.id ≡ none)
    ⊎ ((a.id ≡ some "") ⊎ ((g : String) × (a.id ≡ some g) × (contains g s.user_groups ≡ true)))

-- Whether an entry is for a session: for everyone, for its own host, for its user, one of its groups,
-- or for its host as a client or a server.
abbrev pub IsForType : AceType → UserType → Session → Ace → Type 0
IsForType all u s a = Unit
IsForType self a_client s a = a.id ≡ some s.username
IsForType self a_depot s a = a.id ≡ some s.username
IsForType sys_user a_user s a = IsNamed s a
IsForType sys_group a_user s a = IsInGroup s a
IsForType opsi_client a_client s a = IsNamed s a
IsForType opsi_depotserver a_depot s a = IsNamed s a
IsForType _ u s a = ⊥

abbrev pub IsFor : Session → Ace → Type 0
IsFor s a = IsForType a.ace_type (user_type s) s a

abbrev Picked : UserType → Session → Option Ace → Type 0
Picked u s none = Unit
Picked u s (some a) = IsForType a.ace_type u s a

names_user-IsNamed : (s : Session) (a : Ace) → names_user s a ≡ true → IsNamed s a
names_user-IsNamed s a h = go a.id h
  where
    go :
        (i : Option String)
        → (not (truthy i) || eq_option i (some s.username)) ≡ true
        → (i ≡ none) ⊎ ((i ≡ some "") ⊎ (i ≡ some s.username))
    go none h = inl refl
    go (some i) h = elim (Bool-cases (i == "")) [
      | inl e ↦ inr (inl (ap some ((eq_iff i "").0 e)))
      | inr e ↦ inr (inr (ap some ((eq_iff i s.username).0 (rw e at h))))
    ]

names_group-IsInGroup : (s : Session) (a : Ace) → names_group s a ≡ true → IsInGroup s a
names_group-IsInGroup s a h = go a.id h
  where
    go :
        (i : Option String)
        → (not (truthy i) || (elim i [ none ↦ false | some g ↦ contains g s.user_groups ])) ≡ true
        → (i ≡ none)
          ⊎ ((i ≡ some "") ⊎ ((g : String) × (i ≡ some g) × (contains g s.user_groups ≡ true)))
    go none h = inl refl
    go (some i) h = elim (Bool-cases (i == "")) [
      | inl e ↦ inr (inl (ap some ((eq_iff i "").0 e)))
      | inr e ↦ inr (inr (i, refl, (rw e at h)))
    ]

when_true-Picked :
    (t : AceType) (u : UserType) (s : Session) (b : Bool) (a : Ace)
    → a.ace_type ≡ t
    → (b ≡ true → IsForType t u s a)
    → Picked u s (when_true b a)
when_true-Picked t u s true a e h = subst (λ x. IsForType x u s a) (sym e) (h refl)
when_true-Picked t u s false a e h = tt

pick_of-Picked :
    (t : AceType) (u : UserType) (s : Session) (a : Ace)
    → a.ace_type ≡ t
    → Picked u s (pick_of t u s a)
pick_of-Picked all u s a e = subst (λ x. IsForType x u s a) (sym e) tt
pick_of-Picked self a_client s a e =
    subst (λ x. IsForType x a_client s (record a { id = some s.username })) (sym e) refl
pick_of-Picked self a_depot s a e =
    subst (λ x. IsForType x a_depot s (record a { id = some s.username })) (sym e) refl
pick_of-Picked sys_user a_user s a e =
    when_true-Picked sys_user a_user s (names_user s a) a e (names_user-IsNamed s a)
pick_of-Picked sys_group a_user s a e =
    when_true-Picked sys_group a_user s (names_group s a) a e (names_group-IsInGroup s a)
pick_of-Picked opsi_client a_client s a e =
    when_true-Picked opsi_client a_client s (names_user s a) a e (names_user-IsNamed s a)
pick_of-Picked opsi_depotserver a_depot s a e =
    when_true-Picked opsi_depotserver a_depot s (names_user s a) a e (names_user-IsNamed s a)
pick_of-Picked self a_user s a e = tt
pick_of-Picked _ u s a e = tt

prepend-All :
    (s : Session) (o : Option Ace) (aces : List Ace)
    → Picked (user_type s) s o
    → All (IsFor s) aces
    → All (IsFor s) (prepend o aces)
prepend-All s none aces h k = k
prepend-All s (some a) aces h k = (h, k)

pick_all-IsFor : (s : Session) (aces : List Ace) → All (IsFor s) (pick_all s aces)
unfolding pick_all
pick_all-IsFor s [] = tt
pick_all-IsFor s (a ∷ aces) =
    prepend-All s (pick_of a.ace_type (user_type s) s a) (pick_all s aces)
      (pick_of-Picked a.ace_type (user_type s) s a refl) (pick_all-IsFor s aces)

abbrev pub Answered : Session → Outcome Error (List Ace) → Type 0
Answered s (done aces) = (is_empty aces ≡ false) × All (IsFor s) aces
Answered s (raised e) = e ≡ permission_denied

or_denied-Answered :
    (s : Session) (aces : List Ace) → All (IsFor s) aces → Answered s (or_denied aces)
or_denied-Answered s [] h = refl
or_denied-Answered s (a ∷ aces) h = (refl, h)

-- On a server with entries, `_get_ace` gives a session at least one entry for a method, and only entries
-- that are for everyone, for its own host, for its user or groups, or for hosts of its type; or it
-- denies it the method.
pub get_ace-IsFor :
    (method : String) (entry : String × List Ace) (acl : Acl) (s : Session)
    → Answered s (get_ace (entry ∷ acl) method (some s))
unfolding get_ace
get_ace-IsFor method entry acl s =
    or_denied-Answered s (pick_all s (entries method (entry ∷ acl)))
      (pick_all-IsFor s (entries method (entry ∷ acl)))
