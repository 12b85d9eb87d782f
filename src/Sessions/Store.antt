-- ===== src/Sessions/Store.antt =====
-- `load`, `refresh`, `_store`, `delete` and `is_stored` of `OPSISession` in opsiconfd/session.py.
pub mod Names
pub mod Synced
use opsiconfd.Prelude.{
  ℕ, suc, ◌+◌, String, List, [], ◌∷◌, Option, none, some, Bool, true, false, not, ◌&&◌, ◌||◌,
  if◌then◌else◌, ◌==◌, eqb, leb,
}
use Prim.Native.String.{◌++◌ as ◌+++◌}
use opsiconfd.Prelude.Dict.{Dict, lookup, insert, remove}
use opsiconfd.Prelude.Effect.{Effect, Outcome, done, raised, pure, raise, change, ◌>>=◌, ◌>>◌}
use opsiconfd.Sessions.Data.{Attribute, is_modified, Session, set_version, set_last_used}
use opsiconfd.Sessions.World.{Error, value_error, assertion_error, Row, World, Env, Act, is_expired}
use opsiconfd.Sessions.Wire.{all_attributes, serialize, deserialize, set_attributes}

-- `hset(key, mapping)` on the fields of a key.
pub hset : List (String × String) → Row → Row
hset [] row = row
hset ((name, v) ∷ mapping) row = hset mapping (insert name v row)

-- `{a: v for a, v in data.items() if a in self._modifications}`, by the attributes.
pub only_modified : List Attribute → List Attribute → List Attribute
only_modified mods [] = []
only_modified mods (a ∷ as') =
    if is_modified a mods then a ∷ only_modified mods as' else only_modified mods as'

abbrev pub row_of : String → World → Row
row_of key w = elim (lookup key w.rows) [ none ↦ [] | some row ↦ row ]

abbrev pub exists : String → World → Bool
exists key w = elim (lookup key w.rows) [ none ↦ false | some row ↦ true ]

abbrev pub is_empty : {A : Type 0} → List A → Bool
is_empty [] = true
is_empty (x ∷ xs) = false

module _ (env : Env) where
  -- The key of a session in redis.
  unfoldable pub key_of : String → String → String
  key_of addr id = env.redis_key +++ ":" +++ env.ip_address_to_redis_key addr +++ ":" +++ id

  -- `redis_key`
  unfoldable pub own_key : Act String
  unfolding key_of
  own_key (s, w) = elim s.session_id [
    | none ↦ raise assertion_error (s, w)
    | some id ↦
        if id == "" then raise assertion_error (s, w) else pure (key_of s.client_addr id) (s, w)
  ]

  -- `load`: a field that cannot be read makes it return false, a number that cannot raises.
  pub load_row : Row → Act Bool
  load_row row (s, w) = elim (deserialize env row) [
    | none ↦ pure false (s, w)
    | some fields ↦
        if is_empty fields then pure false (s, w) else elim (set_attributes env fields s) [
          | none ↦ raise value_error (s, w)
          | some s' ↦
              let stored = if eqb s'.last_stored 0 then w.clock else s'.last_stored in
              pure true (record s' { last_stored = stored; modifications = [] }, w)
        ]
  ]

  pub load : Act Bool
  unfolding own_key load_row
  load = do key ← own_key; λ st. load_row (row_of key st.1) st

  -- `get_version_from_redis`
  unfoldable pub get_version_from_redis : Act (Option String)
  unfolding own_key
  get_version_from_redis = do
    key ← own_key
    λ st. elim (lookup "version" (row_of key st.1)) [
      | none ↦ pure none st
      | some v ↦ pure (if v == "" then none else some v) st
    ]

  unfoldable pub refresh_from : Option String → Act Bool
  unfolding load
  refresh_from none st = pure false st
  refresh_from (some v) st = if v == st.0.version then pure true st else load st

  unfoldable pub refresh : Act Bool
  unfolding get_version_from_redis refresh_from
  refresh = get_version_from_redis >>= refresh_from

  pub is_stored : Act Bool
  unfolding own_key
  is_stored = do key ← own_key; λ st. pure (exists key st.1) st

  -- The session as `_store` writes it: with a new version and the time.
  abbrev pub stamped : Session → World → Session
  stamped s w = set_version (env.uuid w.drawn) (record s { last_stored = w.clock })

  -- What `_store` writes to a key, and the changes forgotten.
  pub write_row : Bool → String → Session → World → Session × World
  unfolding only_modified hset
  write_row modifications_only key s w =
      let written =
        if modifications_only && exists key w
        then only_modified s.modifications all_attributes
        else all_attributes in
      let row = hset (serialize env s written) (row_of key w) in
      (
        record s { modifications = [] },
        if is_empty written then w else record w { rows = insert key row w.rows },
      )

  -- `_store`, which `store` awaits.
  unfoldable pub store : Bool → Act (Unit {0})
  unfolding write_row own_key
  store modifications_only (s, w) =
      if s.deleted
        || is_expired w.clock s
        || not s.persistent
        || (modifications_only && is_empty s.modifications)
      then pure tt (s, w)
      else (do key ← own_key; change (λ st. write_row modifications_only key st.0 st.1))
          (stamped s w, record w { drawn = suc w.drawn })

  -- `delete`: redis has dropped the key when the loop asks whether it exists.
  pub delete : Act (Unit {0})
  unfolding own_key
  delete = do
    key ← own_key
    change (λ st. (record st.0 { deleted = true }, record st.1 { rows = remove key st.1.rows }))

  -- `update_last_used`
  abbrev pub update_last_used : Act (Unit {0})
  update_last_used = change (λ st. (set_last_used st.1.clock st.0, st.1))
