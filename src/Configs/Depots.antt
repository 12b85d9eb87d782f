-- ===== src/Configs/Depots.antt =====
-- The loop over the hosts in `configState_getValues`: each gets the values of its depot, and none
-- raises a KeyError.
use opsiconfd.Prelude.{
  String, ◌≡◌, refl, ap, List, [], ◌∷◌, Option, none, some, Bool, true, false, arith, if◌then◌else◌,
  ◌==◌, eq_iff, Option-cases, inl, inr, subst, All, All-imp,
}
use opsiconfd.Prelude.Text.{contains, contains-cons, contains-nil}
use opsiconfd.Prelude.Dict.{Dict, lookup, insert, lookup-insert, HasUniqueKeys}
use opsiconfd.Configs.{
  Value, Row, Table, get_row, overlay, overlay_at, depot_of, add_depot_values, add_all_depot_values,
}
use opsiconfd.Configs.Tables.{or_else, get, get_row-insert, lookup-overlay, HasUniqueRows}

abbrev pub is_in : String → Table → Bool
is_in o t = elim (lookup o t) [ none ↦ false | some row ↦ true ]

lookup-nil : (c : String) → ◌≡◌ {A = Option (List Value)} (lookup c []) none
unfolding lookup
lookup-nil c = refl

get_row-none : (o : String) (t : Table) → lookup o t ≡ none → get_row o t ≡ []
get_row-none o t h = rw (h, get_row) refl

get_row-some : (o : String) (row : Row) (t : Table) → lookup o t ≡ some row → get_row o t ≡ row
get_row-some o row t h = rw (h, get_row) refl

module _ (configserver_id : String) (depots : Dict Value) (depot_values : Table)
    (unique : HasUniqueRows depot_values) where
  -- What the depot of a host says of a config.
  abbrev pub depot_value : String → String → Option (List Value)
  depot_value h c = elim (depot_of configserver_id (lookup h depots)) [
    | none ↦ none
    | some depot ↦ get depot c depot_values
  ]

  -- The table `t'` is `t` with the values of their depots for the hosts with `p`.
  pub record Filled (p : String → Bool) (t t' : Table) : Type 0 where
    pub gets :
        (o c : String)
        → get o c t' ≡ (if p o then or_else (depot_value o c) (get o c t) else get o c t)
    pub keeps : (o : String) → is_in o t ≡ true → is_in o t' ≡ true

  get-overlay :
      (h : String) (over row : Row) (t : Table) (o c : String)
      → lookup h t ≡ some row
      → HasUniqueKeys over
      → get o c (insert h (overlay over row) t)
        ≡ (if h == o then or_else (lookup c over) (get o c t) else get o c t)
  get-overlay h over row t o c found u =
      ground
        (arith, get_row-insert o h (overlay over row) t, lookup-overlay c over row u, eq_iff h o)

  overlay_at-some :
      (h : String) (over : Row) (t : Table)
      → is_in h t ≡ true
      → HasUniqueKeys over
      → (t' : Table) × (overlay_at h over t ≡ some t')
        × ((o c : String)
            → get o c t' ≡ (if h == o then or_else (lookup c over) (get o c t) else get o c t))
        × ((o : String) → is_in o t ≡ true → is_in o t' ≡ true)
  unfolding overlay_at lookup
  overlay_at-some h [] t here u = (t, refl, λ o c. ground arith, λ o k. k)
  overlay_at-some h (e ∷ over) t here u = elim (Option-cases (lookup h t)) [
    | inl none_here ↦ cc
    | inr (row, found) ↦ (
      insert h (overlay (e ∷ over) row) t,
      rw (found, overlay_at) refl,
      λ o c. get-overlay h (e ∷ over) row t o c found u,
      λ o k. ground (arith, lookup-insert h o (overlay (e ∷ over) row) t),
    )
  ]

  depot_value-some :
      (h c depot : String) (row : Row)
      → depot_of configserver_id (lookup h depots) ≡ some depot
      → get_row depot depot_values ≡ row
      → depot_value h c ≡ lookup c row
  depot_value-some h c depot row e f = rw (e, depot_value) (ap (λ r. lookup c r) f)

  add_depot_values-Filled :
      (h : String) (t : Table)
      → is_in h t ≡ true
      → (t' : Table) × (add_depot_values configserver_id depots depot_values h t ≡ some t')
        × Filled (λ o. h == o) t t'
  unfolding add_depot_values
  add_depot_values-Filled h t here =
      elim (Option-cases (depot_of configserver_id (lookup h depots))) [
        | inl no_depot ↦ (
          t,
          rw (no_depot, add_depot_values) refl,
          record { gets = λ o c. ground (arith, eq_iff h o); keeps = λ o k. k },
        )
        | inr (depot, e) ↦ elim (Option-cases (lookup depot depot_values)) [
          | inl no_row ↦ (
            t,
            rw (e, add_depot_values) (rw no_row refl),
            record {
              gets = λ o c. ground (
                arith,
                depot_value-some h c depot [] e (get_row-none depot depot_values no_row),
                lookup-nil c,
                eq_iff h o,
              );
              keeps = λ o k. k;
            },
          )
          | inr (row, f) ↦
              let (t', done, gets, keeps) =
                overlay_at-some h row t here
                  (subst HasUniqueKeys (get_row-some depot row depot_values f) (unique depot)) in
              (
                t',
                rw (e, add_depot_values) (rw f done),
                record {
                  gets = λ o c. ground (
                    arith,
                    gets o c,
                    depot_value-some h c depot row e (get_row-some depot row depot_values f),
                    eq_iff h o,
                  );
                  keeps = keeps;
                },
              )
        ]
      ]

  pub add_all_depot_values-Filled :
      (hs : List String) (t : Table)
      → All (λ h. is_in h t ≡ true) hs
      → (t' : Table) × (add_all_depot_values configserver_id depots depot_values hs t ≡ some t')
        × Filled (λ o. contains o hs) t t'
  unfolding add_all_depot_values
  add_all_depot_values-Filled [] t here =
      (t, refl, record { gets = λ o c. ground (arith, contains-nil o); keeps = λ o k. k })
  add_all_depot_values-Filled (h ∷ hs) t (here, others) =
      let (t', e, f) = add_depot_values-Filled h t here in
      let (t'', e', f') = add_all_depot_values-Filled hs t' (All-imp (λ k. f.keeps k) hs others) in
      (
        t'',
        rw (e, add_all_depot_values) e',
        record {
          gets = λ o c.
              ground (arith, f'.gets o c, f.gets o c, contains-cons o h hs, eq_iff o h, eq_iff h o);
          keeps = λ o k. f'.keeps o (f.keeps o k);
        },
      )
