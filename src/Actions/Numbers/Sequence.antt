-- ===== src/Actions/Numbers/Sequence.antt =====
-- `actionSequence`: the active actions of a client are numbered through, over all its groups.
use opsiconfd.Prelude.{
  ℕ, zero, suc, ◌+◌, String, ◌≡◌, refl, sym, ap, ◌∙◌, List, [], ◌∷◌, ◌++◌, append-nil, append_assoc,
  none, some, Bool, true, false, not, arith, if◌then◌else◌, Bool-cases, count, get_elem?, take, map,
  inl, inr,
}
use opsiconfd.Prelude.Int.{ℤ, pos, negsuc}
use mathlib.Core.List.{map-append}
use opsiconfd.Actions.Data.{ProductOnClient, Action, ActionGroup}
use opsiconfd.Actions.Plan.{is_idle}
use opsiconfd.Actions.Numbers.{ProductActionGroup, number_action, number_actions, number_groups}
use opsiconfd.Actions.Plan.Firsts.{all_actions}

abbrev pub is_active : Action → Bool
is_active a = not (is_idle a)

-- The sequence numbers of the objects in the groups, in order.
abbrev sequence : ProductOnClient → ℤ
sequence poc = poc.action_sequence

abbrev pub sequences : List ProductActionGroup → List ℤ
sequences [] = []
sequences (g ∷ gs) = map sequence g.product_on_clients ++ sequences gs

number_from : ℕ → List Action → List ℤ
number_from n [] = []
number_from n (a ∷ as') =
    (if is_idle a then negsuc 0 else pos n) ∷ number_from (if is_idle a then n else suc n) as'

next-shift :
    (a : Action) (n c : ℕ)
    → (if is_idle a then n else suc n) + c ≡ n + ((elim (is_active a) [ true ↦ 1 | false ↦ 0 ]) + c)
next-shift a n c = ground arith

number_from-append :
    (n : ℕ) (xs ys : List Action)
    → number_from n (xs ++ ys) ≡ number_from n xs ++ number_from (n + count is_active xs) ys
unfolding number_from
number_from-append n [] ys = ap (λ k. number_from k ys) (omega arith)
number_from-append n (a ∷ xs) ys =
    ap (λ l. (if is_idle a then negsuc 0 else pos n) ∷ l)
      (number_from-append (if is_idle a then n else suc n) xs ys
        ∙ ap (λ k. number_from (if is_idle a then n else suc n) xs ++ number_from k ys)
            (next-shift a n (count is_active xs)))

module _ (new : String → String → String → ProductOnClient) (client_id : String) where
  number_action-next :
      (a : Action) (n : ℕ) (g : ProductActionGroup)
      → ((number_action new client_id a (n, g)).0 ≡ (if is_idle a then n else suc n))
        × (map sequence (number_action new client_id a (n, g)).1.product_on_clients
            ≡ map sequence g.product_on_clients ++ (if is_idle a then negsuc 0 else pos n) ∷ [])
  unfolding number_action
  number_action-next a n g = elim (Bool-cases (is_idle a)) [
    | inl idle ↦ rw idle (refl, map-append sequence g.product_on_clients _)
    | inr active ↦ rw active (refl, map-append sequence g.product_on_clients _)
  ]

  number_actions-from :
      (l : List Action) (n : ℕ) (g : ProductActionGroup)
      → (map sequence (number_actions new client_id l (n, g)).1.product_on_clients
          ≡ map sequence g.product_on_clients ++ number_from n l)
        × ((number_actions new client_id l (n, g)).0 ≡ n + count is_active l)
  unfolding number_actions number_from
  number_actions-from [] n g = (sym (append-nil _), omega arith)
  number_actions-from (a ∷ l) n g =
      let st = number_action new client_id a (n, g) in
      let (numbers, next) = number_actions-from l st.0 st.1 in
      let (h, k) = number_action-next a n g in
      (
        numbers
            ∙ ap (λ l'. l' ++ number_from st.0 l) k
            ∙ append_assoc (map sequence g.product_on_clients)
                ((if is_idle a then negsuc 0 else pos n) ∷ []) (number_from st.0 l)
            ∙ ap
                (λ m.
                  map sequence g.product_on_clients
                  ++ (if is_idle a then negsuc 0 else pos n) ∷ number_from m l)
                h,
        next ∙ ap (λ m. m + count is_active l) h ∙ next-shift a n (count is_active l),
      )

  number_groups-from :
      (gs : List ActionGroup) (n : ℕ)
      → sequences (number_groups new client_id n gs) ≡ number_from n (all_actions gs)
  unfolding number_groups number_from
  number_groups-from [] n = refl
  number_groups-from (g ∷ gs) n =
      let start : ProductActionGroup = record {
        priority = g.priority;
        product_on_clients = [];
        priorities = [];
        dependencies = g.dependencies;
        sort_log = g.sort_log;
      } in
      let st = number_actions new client_id g.actions (n, start) in
      let (numbers, next) = number_actions-from g.actions n start in
      ap (λ l. l ++ sequences (number_groups new client_id st.0 gs)) numbers
      ∙ ap (λ l. number_from n g.actions ++ l) (number_groups-from gs st.0)
      ∙ ap (λ m. number_from n g.actions ++ number_from m (all_actions gs)) next
      ∙ sym (number_from-append n g.actions (all_actions gs))

get_elem?-number_from :
    (l : List Action) (n i : ℕ) (a : Action)
    → get_elem? l i ≡ some a
    → get_elem? (number_from n l) i
      ≡ some (if is_idle a then negsuc 0 else pos (n + count is_active (take i l)))
unfolding number_from
get_elem?-number_from [] n i a h = cc
get_elem?-number_from (b ∷ l) n zero a h =
    ap (λ o. elim o [ none ↦ none | some x ↦ some (if is_idle x then negsuc 0 else pos n) ]) h
    ∙ ap (λ m. some (if is_idle a then negsuc 0 else pos m)) (omega arith)
get_elem?-number_from (b ∷ l) n (suc i) a h =
    get_elem?-number_from l (if is_idle b then n else suc n) i a h
    ∙ ap (λ m. some (if is_idle a then negsuc 0 else pos m))
        (next-shift b n (count is_active (take i l)))

-- Over all the groups of a client, in their order: an action that is not idle is numbered by
-- the number of actions before it that are not idle, and an idle action has the number -1.
pub number_groups-sequence :
    (new : String → String → String → ProductOnClient) (client_id : String)
    (groups : List ActionGroup) (i : ℕ) (a : Action)
    → get_elem? (all_actions groups) i ≡ some a
    → get_elem? (sequences (number_groups new client_id 0 groups)) i
      ≡ some (if is_idle a then negsuc 0 else pos (count is_active (take i (all_actions groups))))
number_groups-sequence new client_id groups i a h =
    ap (λ l. get_elem? l i) (number_groups-from new client_id groups 0)
    ∙ get_elem?-number_from (all_actions groups) 0 i a h
    ∙ ap (λ m. some (if is_idle a then negsuc 0 else pos m)) (omega arith)
