-- ===== src/Messagebus/Unsubscribe.antt =====
-- The removal of channels by `_process_channel_subscription` of opsiconfd/messagebus/websocket.py.
use opsiconfd.Prelude.{
  ℕ, String, List, [], ◌∷◌, ◌++◌, none, some, Bool, if◌then◌else◌, ◌==◌, ◌&&◌, not, eqb,
}
use opsiconfd.Prelude.Text.{contains}
use opsiconfd.Prelude.Dict.{Dict, lookup, keys}
use opsiconfd.Messagebus.Data.{Operation, set, remove, Reader, Bus}
use opsiconfd.Messagebus.Readers.{get_subscribed_channels, remove_from}

abbrev pub keep_if : (String → Bool) → List String → List String
keep_if p [] = []
keep_if p (c ∷ cs) = if p c then c ∷ keep_if p cs else keep_if p cs

-- The channels to remove; the own session channel is never one of them.
unfoldable pub to_remove : Operation → String → List String → Dict Reader → List String
to_remove remove own cs subscribed =
    keep_if (λ c. not (c == own) && contains c (keys subscribed)) cs
to_remove set own cs subscribed =
    keep_if (λ c. not (c == own) && not (contains c cs)) (keys subscribed)
to_remove _ own cs subscribed = []

unfoldable pub add_to_group : ℕ → String → List (ℕ × List String) → List (ℕ × List String)
add_to_group n c [] = (n, c ∷ []) ∷ []
add_to_group n c ((k, cs) ∷ gs) =
    if eqb k n then (k, cs ++ c ∷ []) ∷ gs else (k, cs) ∷ add_to_group n c gs

-- `remove_by_reader`
unfoldable pub group : List String → Dict Reader → List (ℕ × List String) → List (ℕ × List String)
group [] subscribed gs = gs
group (c ∷ cs) subscribed gs = elim (lookup c subscribed) [
  | none ↦ group cs subscribed gs
  | some r ↦ group cs subscribed (add_to_group r.ref c gs)
]

unfoldable pub remove_groups : List (ℕ × List String) → List Reader → List Reader
remove_groups [] rs = rs
remove_groups ((n, cs) ∷ gs) rs = remove_groups gs (remove_from n cs rs)

-- The removal of channels for an operation.
unfoldable pub unsubscribe : Operation → List String → Bus → Bus
unsubscribe op cs b =
    let subscribed = get_subscribed_channels b.readers in
    record b {
      readers =
          remove_groups (group (to_remove op b.session_channel cs subscribed) subscribed [])
            b.readers;
    }
