-- ===== src/Sessions/Store/Synced.antt =====
-- What a write of the changes only leaves in redis.
use opsiconfd.Prelude.{
  ℕ, String, ◌≡◌, refl, ap, ◌++◌, any-append, ◌∙◌, sym, List, [], ◌∷◌, some, Bool, true, false, not,
  ◌&&◌, ◌||◌, arith, if◌then◌else◌, ◌==◌, eq_refl, any, Bool-cases, inl, inr, suc,
}
use opsiconfd.Prelude.Dict.{lookup, insert, lookup-insert}
use opsiconfd.Prelude.Effect.{done}
use opsiconfd.Sessions.Data.{
  Attribute, attribute_name, is_attribute, is_modified, Session, version, set_version,
}
use opsiconfd.Sessions.World.{Row, Env, World, is_expired}
use opsiconfd.Sessions.Wire.{all_attributes, wire, serialize}
use opsiconfd.Sessions.Store.{
  hset, only_modified, row_of, exists, is_empty, key_of, write_row, stamped, own_key, store,
}
use opsiconfd.Sessions.Store.Names.{
  any-only_modified, any-all_attributes, lookup-hset, same_attribute,
}

-- Every attribute that is not modified is in redis as it is in the session.
abbrev pub IsSynced : Env → Session → Row → Type 0
IsSynced env s row =
    (a : Attribute)
    → is_modified a s.modifications ≡ false
    → lookup (attribute_name a) row ≡ some (wire env s a)

wire-forget :
    (env : Env) (s : Session) (m : List Attribute) (a : Attribute)
    → wire env (record s { modifications = m }) a ≡ wire env s a
unfolding wire
wire-forget env s m version = refl
wire-forget env s m _ = refl

row_of-insert :
    (key : String) (row : Row) (w : World)
    → row_of key (record w { rows = insert key row w.rows }) ≡ row
row_of-insert key row w = ground (arith, lookup-insert key key row w.rows, eq_refl key)

module _ (env : Env) (key : String) (s : Session) (w : World) where
  -- The fields after a write of some attributes.
  written_lem :
      (l : List Attribute) (a : Attribute)
      → (any (is_attribute a) l ≡ false
          → lookup (attribute_name a) (row_of key w) ≡ some (wire env s a))
      → lookup (attribute_name a) (
          row_of key (
            if is_empty l
            then w
            else record w { rows = insert key (hset (serialize env s l) (row_of key w)) w.rows }))
        ≡ some (wire env s a)
  written_lem [] a h = h refl
  written_lem (b ∷ l) a h =
      rw (row_of-insert key (hset (serialize env s (b ∷ l)) (row_of key w)) w) (
        lookup-hset env s a (b ∷ l) (row_of key w)
        ∙ elim (Bool-cases (any (is_attribute a) (b ∷ l))) [
          | inl there ↦ rw there refl
          | inr absent ↦ rw absent (h absent)
        ])

  write_row-lookup :
      (only : Bool) (a : Attribute)
      → ((only && exists key w) ≡ true → IsSynced env s (row_of key w))
      → lookup (attribute_name a) (row_of key (write_row env only key s w).1)
        ≡ some (wire env (write_row env only key s w).0 a)
  unfolding write_row
  write_row-lookup only a h = elim (Bool-cases (only && exists key w)) [
    | inl partly ↦ rw partly (
        written_lem (only_modified s.modifications all_attributes) a (λ absent. h partly a (
          ground (arith, any-only_modified a s.modifications all_attributes, any-all_attributes a)))
        ∙ ap some (sym (wire-forget env s [] a)))
    | inr whole ↦ rw whole (
        written_lem all_attributes a (λ absent. cc (absent, any-all_attributes a))
        ∙ ap some (sym (wire-forget env s [] a)))
  ]

module _ (env : Env) (key : String) (s : Session) (w : World) (a : Attribute) where
  unwritten_lem :
      (l : List Attribute)
      → any (is_attribute a) l ≡ false
      → lookup (attribute_name a) (
          row_of key (
            if is_empty l
            then w
            else record w { rows = insert key (hset (serialize env s l) (row_of key w)) w.rows }))
        ≡ lookup (attribute_name a) (row_of key w)
  unwritten_lem [] absent = refl
  unwritten_lem (b ∷ l) absent =
      rw (row_of-insert key (hset (serialize env s (b ∷ l)) (row_of key w)) w)
        (lookup-hset env s a (b ∷ l) (row_of key w) ∙ rw absent refl)

  -- A write of the changes leaves the other fields.
  pub write_row-unmodified :
      exists key w ≡ true
      → is_modified a s.modifications ≡ false
      → lookup (attribute_name a) (row_of key (write_row env true key s w).1)
        ≡ lookup (attribute_name a) (row_of key w)
  unfolding write_row
  write_row-unmodified there same = rw there (
      unwritten_lem (only_modified s.modifications all_attributes)
        (ground (arith, any-only_modified a s.modifications all_attributes, any-all_attributes a)))

wire-stored :
    (env : Env) (s : Session) (n : ℕ) (a : Attribute)
    → wire env (record s { last_stored = n }) a ≡ wire env s a
unfolding wire
wire-stored env s n version = refl
wire-stored env s n _ = refl

wire-version :
    (env : Env) (s : Session) (n : ℕ) (v : String) (m : List Attribute) (a : Attribute)
    → is_attribute a version ≡ false
    → wire env (record s { last_stored = n; version = v; modifications = m }) a ≡ wire env s a
unfolding wire
wire-version env s n v m version h = cc
wire-version env s n v m _ h = refl

modified-more :
    (a b : Attribute) (mods : List Attribute)
    → is_modified a (if is_modified b mods then mods else mods ++ b ∷ []) ≡ false
    → (is_modified a mods ≡ false) × (is_attribute a b ≡ false)
modified-more a b mods h = elim (Bool-cases (is_modified b mods)) [
  | inl old ↦ elim (Bool-cases (is_attribute a b)) [
    | inl same ↦ ground (arith, ap (λ x. is_modified x mods) (same_attribute a b same))
    | inr other ↦ (ground arith, other)
  ]
  | inr new ↦ ground (arith, any-append (is_attribute a) mods (b ∷ []))
]

IsSynced-stamped :
    (env : Env) (s : Session) (w : World) (row : Row)
    → IsSynced env s row
    → IsSynced env (stamped env s w) row
unfolding set_version
IsSynced-stamped env s w row h a m = elim (Bool-cases (s.version == env.uuid w.drawn)) [
  | inl same ↦ rw same (h a (rw same at m) ∙ ap some (sym (wire-stored env s w.clock a)))
  | inr other ↦
      let both = modified-more a version s.modifications (rw other at m) in
      rw other (
        h a both.0
        ∙ ap some (
            sym (
              wire-version env s w.clock (env.uuid w.drawn)
                (if is_modified version s.modifications
                  then s.modifications
                  else s.modifications ++ version ∷ [])
                a both.1)))
]

abbrev pub HasId : Session → String → Type 0
HasId s id = (s.session_id ≡ some id) × ((id == "") ≡ false)

stamped-keeps :
    (env : Env) (s : Session) (w : World)
    → ((stamped env s w).session_id ≡ s.session_id)
      × ((stamped env s w).client_addr ≡ s.client_addr)
unfolding set_version
stamped-keeps env s w = elim (Bool-cases (s.version == env.uuid w.drawn)) [
  | inl same ↦ rw same (refl, refl)
  | inr other ↦ rw other (refl, refl)
]

own_key-HasId :
    (env : Env) (s : Session) (w : World) (id : String)
    → HasId s id
    → own_key env (s, w) ≡ (done (key_of env s.client_addr id), (s, w))
unfolding own_key
own_key-HasId env s w id (has, named) = simp (has, named)

-- A session that is neither deleted nor expired, and is kept.
abbrev pub is_kept : ℕ → Session → Bool
is_kept clock s = not s.deleted && not (is_expired clock s) && s.persistent

is_kept-not_skipped :
    (only : Bool) (clock : ℕ) (s : Session)
    → is_kept clock s ≡ true
    → (only && is_empty s.modifications) ≡ false
    → (s.deleted || is_expired clock s || not s.persistent || (only && is_empty s.modifications))
      ≡ false
is_kept-not_skipped only clock s kept changes = ground arith

-- If redis agrees with the session but for the modified attributes, it agrees with all of it once
-- the session was stored, be it the changes only; the session then has no modified attributes.
pub store-synced :
    (env : Env) (only : Bool) (s : Session) (w : World) (id : String)
    → HasId s id
    → is_kept w.clock s ≡ true
    → (only && is_empty s.modifications) ≡ false
    → IsSynced env s (row_of (key_of env s.client_addr id) w)
    → (s' : Session) × (w' : World) × (store env only (s, w) ≡ (done tt, (s', w')))
      × (s'.modifications ≡ [])
      × ((a : Attribute)
          → lookup (attribute_name a) (row_of (key_of env s'.client_addr id) w')
            ≡ some (wire env s' a))
unfolding store write_row
store-synced env only s w id (has, named) kept some_changes synced =
    let keeps = stamped-keeps env s w in
    let t = stamped env s w in
    let drawn : World = record w { drawn = suc w.drawn } in
    let key = key_of env t.client_addr id in
    let written = write_row env only key t drawn in
    (
      written.0,
      written.1,
      rw (is_kept-not_skipped only w.clock s kept some_changes)
          (rw (own_key-HasId env t drawn id (keeps.0 ∙ has, named)) refl),
      refl,
      λ a.
          write_row-lookup env key t drawn only a
            (λ _. IsSynced-stamped env s w (row_of key w) (rw keeps.1 synced)),
    )
