-- ===== src/Configs/Clients/Known.antt =====
-- The depot of each client in the answer is one that was asked for.
use opsiconfd.Prelude.{
  String, List, [], ◌∷◌, ◌≡◌, subst, Option, none, some, Bool, true, not, ◌&&◌, All, All-append,
  Bool-cases, inl, inr, arith,
}
use opsiconfd.Prelude.Text.{contains}
use opsiconfd.Prelude.Dict.{Dict}
use opsiconfd.Configs.{Value, text, flag, Table, Backend, get_values}
use opsiconfd.Configs.Clients.{
  Idents, Assignment, Progress, depot_value, remove_id, assign, assign_all, to_server, assign_rest,
  set_alternatives, set_all_alternatives, with_alternatives, assign_clients, assign_known,
  get_client_to_depotserver, is_empty,
}

-- Every assignment is to one of the depots.
abbrev pub AllKnown : List String → List Assignment → Type 0
AllKnown depots = All (λ a. contains a.depot_id depots ≡ true)

module _ (depots : List String) where
  assign-AllKnown :
      (c : String) (v : Value) (left : List String) (p : Progress)
      → AllKnown depots p.result
      → AllKnown depots (assign depots c v left p).result
  assign-AllKnown c (flag b) left p h = h
  assign-AllKnown c (text d) left p h = elim (Bool-cases (contains d depots)) [
    | inl known ↦
        rw known (All-append (λ a. contains a.depot_id depots ≡ true) p.result _ h (known, tt))
    | inr unknown ↦ rw unknown h
  ]

  abbrev Known : Option Progress → Type 0
  Known none = Unit
  Known (some p) = AllKnown depots p.result

  by_client :
      (table : Table) (c : String) (p : Progress) (v : Value) (left : Option (List String))
      → AllKnown depots p.result
      → ((q : Progress) → AllKnown depots q.result → Known (assign_all depots table q))
      → Known (elim left [ none ↦ none | some l ↦ assign_all depots table (assign depots c v l p) ])
  by_client table c p v none h rest = tt
  by_client table c p v (some l) h rest = rest (assign depots c v l p) (assign-AllKnown c v l p h)

  by_depot :
      (table : Table) (c : String) (p : Progress) (v : Option Value)
      → AllKnown depots p.result
      → ((q : Progress) → AllKnown depots q.result → Known (assign_all depots table q))
      → Known (elim v [
        | none ↦ assign_all depots table p
        | some v' ↦ elim (remove_id c p.clients) [
          | none ↦ none
          | some l ↦ assign_all depots table (assign depots c v' l p)
        ]
      ])
  by_depot table c p none h rest = rest p h
  by_depot table c p (some v) h rest = by_client table c p v (remove_id c p.clients) h rest

  assign_all-Known :
      (table : Table) (p : Progress) → AllKnown depots p.result → Known (assign_all depots table p)
  unfolding assign_all
  assign_all-Known [] p h = h
  assign_all-Known ((c, row) ∷ table) p h =
      by_depot table c p (depot_value row) h (λ q k. assign_all-Known table q k)

  to_server-AllKnown :
      (server : String) (cs : List String)
      → contains server depots ≡ true
      → AllKnown depots (to_server server cs)
  to_server-AllKnown server [] h = tt
  to_server-AllKnown server (c ∷ cs) h = (h, to_server-AllKnown server cs h)

  assign_rest-AllKnown :
      (server : String) (p : Progress)
      → AllKnown depots p.result
      → AllKnown depots (assign_rest server depots p).result
  unfolding assign_rest
  assign_rest-AllKnown server p h =
      elim (Bool-cases (not (is_empty p.clients) && contains server depots)) [
        | inl left ↦ rw left (
            All-append (λ a. contains a.depot_id depots ≡ true) p.result
              (to_server server p.clients) h (to_server-AllKnown server p.clients (ground arith)))
        | inr none_left ↦ rw none_left h
      ]

  set_alternatives-AllKnown :
      (used : String) (alts : List String) (result : List Assignment)
      → AllKnown depots result
      → AllKnown depots (set_alternatives used alts result)
  unfolding set_alternatives
  set_alternatives-AllKnown used alts [] h = tt
  set_alternatives-AllKnown used alts (a ∷ as') (h, hs) =
      (ground arith, set_alternatives-AllKnown used alts as' hs)

  set_all_alternatives-AllKnown :
      (strings : Dict String) (us : List String) (result : List Assignment)
      → AllKnown depots result
      → AllKnown depots (set_all_alternatives strings us result)
  unfolding set_all_alternatives
  set_all_alternatives-AllKnown strings [] result h = h
  set_all_alternatives-AllKnown strings (u ∷ us) result h =
      set_all_alternatives-AllKnown strings us _ (set_alternatives-AllKnown u _ result h)

  abbrev Answer : Option (List Assignment) → Type 0
  Answer none = Unit
  Answer (some result) = AllKnown depots result

module _ (b : Backend) (i : Idents) (master_only : Bool) (product_ids : List String) where
  with_alternatives-AllKnown :
      (depots : List String) (p : Progress)
      → AllKnown depots p.result
      → AllKnown depots (with_alternatives b i master_only product_ids p)
  unfolding with_alternatives
  with_alternatives-AllKnown depots p h = elim (Bool-cases master_only) [
    | inl only ↦ rw only h
    | inr also ↦ rw also (set_all_alternatives-AllKnown depots _ p.used p.result h)
  ]

  progress-Answer :
      (configserver_id : String) (depots : List String) (o : Option Progress)
      → Known depots o
      → Answer depots (elim o [
        | none ↦ none
        | some p ↦
            some
              (with_alternatives b i master_only product_ids (assign_rest configserver_id depots p))
      ])
  progress-Answer configserver_id depots none h = tt
  progress-Answer configserver_id depots (some p) h =
      with_alternatives-AllKnown depots (assign_rest configserver_id depots p)
        (assign_rest-AllKnown depots configserver_id p h)

  table-Answer :
      (configserver_id : String) (depots clients : List String) (o : Option Table)
      → Answer depots (elim o [
        | none ↦ none
        | some table ↦
            elim (assign_all depots table (record { clients = clients; used = []; result = [] })) [
              | none ↦ none
              | some p ↦ some (
                  with_alternatives b i master_only product_ids
                    (assign_rest configserver_id depots p))
            ]
      ])
  table-Answer configserver_id depots clients none = tt
  table-Answer configserver_id depots clients (some table) =
      progress-Answer configserver_id depots
        (assign_all depots table (record { clients = clients; used = []; result = [] }))
        (assign_all-Known depots table (record { clients = clients; used = []; result = [] }) tt)

  assign_clients-Answer :
      (configserver_id : String) (depots clients : List String)
      → Answer depots (assign_clients b i master_only product_ids configserver_id depots clients)
  unfolding assign_clients
  assign_clients-Answer configserver_id depots clients =
      table-Answer configserver_id depots clients
        (get_values b ("clientconfig.depot.id" ∷ []) clients true)

  assign_known-Answer :
      (configserver_id : String) (depot_ids client_ids : List String)
      → Answer
          (i.depot_ids depot_ids)
          (assign_known b i master_only product_ids configserver_id depot_ids client_ids)
  unfolding assign_known
  assign_known-Answer configserver_id depot_ids client_ids =
      elim (Bool-cases (is_empty (i.depot_ids depot_ids))) [
        | inl no_depots ↦ rw no_depots tt
        | inr depots ↦ rw depots (elim (Bool-cases (is_empty (i.client_ids client_ids))) [
          | inl no_clients ↦ rw no_clients tt
          | inr clients ↦ rw clients (
              assign_clients-Answer configserver_id (i.depot_ids depot_ids)
                (i.client_ids client_ids))
        ])
      ]

  found-Answer :
      (depot_ids client_ids configserver_ids : List String)
      → Answer (i.depot_ids depot_ids) (elim configserver_ids [
        | [] ↦ none
        | configserver_id ∷ others ↦
            assign_known b i master_only product_ids configserver_id depot_ids client_ids
      ])
  found-Answer depot_ids client_ids [] = tt
  found-Answer depot_ids client_ids (configserver_id ∷ others) =
      assign_known-Answer configserver_id depot_ids client_ids

  -- The depot (`depotId`) that `configState_getClientToDepotserver` returns for a client is one of the
  -- depots that were asked for, be it the client's own, that of the defaults or the configserver. The
  -- alternative depots of the client are not meant.
  pub get_client_to_depotserver-AllKnown :
      (depot_ids client_ids : List String) (result : List Assignment)
      → get_client_to_depotserver b i master_only product_ids depot_ids client_ids ≡ some result
      → AllKnown (i.depot_ids depot_ids) result
  unfolding get_client_to_depotserver
  get_client_to_depotserver-AllKnown depot_ids client_ids result e =
      subst (Answer (i.depot_ids depot_ids)) e
        (found-Answer depot_ids client_ids i.configserver_ids)
