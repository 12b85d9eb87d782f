-- ===== src/Configs/Precedence.antt =====
-- The order of precedence in `configState_getValues`.
use opsiconfd.Prelude.{
  String, ◌≡◌, refl, ◌∙◌, ap, List, [], ◌∷◌, ◌++◌, Option, none, some, Bool, true, false, ◌||◌,
  arith, if◌then◌else◌, eq_iff, eq_refl, map, All,
}
use opsiconfd.Prelude.Text.{not_empty, contains, contains-cons, contains-nil}
use opsiconfd.Prelude.Dict.{Dict, lookup, insert, lookup-insert}
use opsiconfd.Configs.{
  Value, text, flag, ConfigState, Row, Table, Backend, put_all, depot_of, copy_defaults,
  client_depots, default_values, get_values, distinct, values_of, defaults_of,
}
use opsiconfd.Configs.Tables.{
  or_else, value_of, get, get-put_all, HasUniqueRows, HasUniqueRows-put_all, get-copy_defaults,
}
use opsiconfd.Configs.Depots.{is_in, add_all_depot_values-Filled}

-- The depot of a host: the one that its config state names, the configserver if that names none or there
-- is no such state, and none if the state has the value True.
abbrev pub its_depot : String → Option Value → Option String
its_depot configserver_id none = some configserver_id
its_depot configserver_id (some (text String.[])) = some configserver_id
its_depot configserver_id (some (text (String.◌∷◌ c s))) = some (String.◌∷◌ c s)
its_depot configserver_id (some (flag b)) = if b then none else some configserver_id

-- What `configState_getValues` returns with defaults for the object `o` and the config `c`: its own
-- config state goes first, then that of its depot, then the default. Only hosts get the last two.
abbrev pub precedence :
    Backend → List String → List String → Dict Value → String → String → Option (List Value)
precedence b config_ids object_ids depots o c =
    let depot_ids = distinct (values_of depots) ++ text b.configserver_id ∷ [] in
    or_else (value_of (b.config_states config_ids (map text object_ids)) o c) (
      if contains o (b.host_ids object_ids)
      then or_else
          (elim (its_depot b.configserver_id (lookup o depots)) [
            | none ↦ none
            | some depot ↦ value_of (b.config_states config_ids depot_ids) depot c
          ])
          (lookup c (defaults_of (b.configs config_ids) []))
      else none)

depot_of-its_depot :
    (configserver_id : String) (v : Option Value)
    → depot_of configserver_id v ≡ its_depot configserver_id v
depot_of-its_depot configserver_id none = refl
depot_of-its_depot configserver_id (some (text String.[])) = refl
depot_of-its_depot configserver_id (some (text (String.◌∷◌ c s))) = rw (not_empty c s) refl
depot_of-its_depot configserver_id (some (flag true)) = refl
depot_of-its_depot configserver_id (some (flag false)) = refl

or_else-none : (o : Option (List Value)) → or_else o none ≡ o
or_else-none none = refl
or_else-none (some v) = refl

get-nil : (o c : String) → get o c [] ≡ none
unfolding lookup
get-nil o c = refl

HasUniqueRows-nil : HasUniqueRows []
unfolding lookup
HasUniqueRows-nil o = tt

is_in-copy_defaults :
    (o : String) (defaults : Row) (hs : List String) (t : Table)
    → (contains o hs || is_in o t) ≡ true
    → is_in o (copy_defaults defaults hs t) ≡ true
unfolding copy_defaults
is_in-copy_defaults o defaults [] t h = ground (arith, contains-nil o)
is_in-copy_defaults o defaults (h ∷ hs) t k =
    is_in-copy_defaults o defaults hs (insert h defaults t)
      (ground (arith, contains-cons o h hs, lookup-insert h o defaults t, eq_iff o h, eq_iff h o))

All-of_contains :
    (P : String → Bool) (hs : List String)
    → ((o : String) → contains o hs ≡ true → P o ≡ true)
    → All (λ h. P h ≡ true) hs
All-of_contains P [] f = tt
All-of_contains P (h ∷ hs) f = (
  f h (ground (arith, contains-cons h h hs, eq_refl h)),
  All-of_contains P hs (λ o k. f o (ground (arith, contains-cons o h hs))),
)

depot_states :
    (depot : Option String) (states : List ConfigState) (c : String)
    → (elim depot [ none ↦ none | some d ↦ get d c (put_all states []) ])
      ≡ (elim depot [ none ↦ none | some d ↦ value_of states d c ])
depot_states none states c = refl
depot_states (some d) states c =
    get-put_all d c states [] ∙ rw get-nil (or_else-none (value_of states d c))

-- The value of a host or of no host, from its parts.
inner :
    (host : Bool) (start depot depot' default : Option (List Value))
    → start ≡ (if host then default else none)
    → depot ≡ depot'
    → (if host then or_else depot start else start)
      ≡ (if host then or_else depot' default else none)
inner true start depot depot' default h k = rw (h, k) refl
inner false start depot depot' default h k = h

-- With defaults, if every host that has a depot names one, the function returns a table, and in it
-- a config of a host has the value of the host's own config state, else that of its depot (the
-- configserver if it has none), else the default; an object that is no host has its own values.
pub get_values-precedence :
    (b : Backend) (config_ids object_ids : List String) (depots : Dict Value)
    → client_depots (b.config_states ("clientconfig.depot.id" ∷ []) (map text object_ids)) []
      ≡ some depots
    → (t : Table) × (get_values b config_ids object_ids true ≡ some t)
      × ((o c : String) → get o c t ≡ precedence b config_ids object_ids depots o c)
unfolding get_values default_values
get_values-precedence b config_ids object_ids depots named =
    let hosts = b.host_ids object_ids in
    let defaults = defaults_of (b.configs config_ids) [] in
    let states =
      b.config_states config_ids (distinct (values_of depots) ++ text b.configserver_id ∷ []) in
    let own = b.config_states config_ids (map text object_ids) in
    let dv = put_all states [] in
    let start = copy_defaults defaults hosts [] in
    let unique = HasUniqueRows-put_all states [] HasUniqueRows-nil in
    let (t, e, f) = add_all_depot_values-Filled b.configserver_id depots dv unique hosts start (
      All-of_contains (λ o. is_in o start) hosts
        (λ o k. is_in-copy_defaults o defaults hosts [] (rw k refl))) in
    (
      put_all own t,
      rw (named, get_values) (rw e refl),
      λ o c.
          get-put_all o c own t
          ∙ ap (or_else (value_of own o c)) (
              f.gets o c
              ∙ inner (contains o hosts) _ _ _ _
                  (get-copy_defaults o c defaults hosts [] ∙ rw get-nil refl)
                  (depot_states (depot_of b.configserver_id (lookup o depots)) states c
                    ∙ ap (λ d. elim d [ none ↦ none | some depot ↦ value_of states depot c ])
                        (depot_of-its_depot b.configserver_id (lookup o depots)))),
    )

-- Without defaults, the function returns a table of the config states that it was asked for: the
-- last one for an object and a config counts, and there are no other values.
pub get_values-own :
    (b : Backend) (config_ids object_ids : List String)
    → (t : Table) × (get_values b config_ids object_ids false ≡ some t)
      × ((o c : String)
          → get o c t ≡ value_of (b.config_states config_ids (map text object_ids)) o c)
unfolding get_values
get_values-own b config_ids object_ids =
    let own = b.config_states config_ids (map text object_ids) in
    (
      put_all own [],
      refl,
      λ o c. get-put_all o c own [] ∙ rw get-nil (or_else-none (value_of own o c)),
    )
