-- ===== src/Messagebus/Readers.antt =====
-- The channels of `MessageReader` of opsiconfd/messagebus/redis.py, and the list of readers that a
-- websocket has.
use opsiconfd.Prelude.{
  ℕ, String, List, [], ◌∷◌, Option, none, some, Bool, true, false, if◌then◌else◌, eqb, ◌==◌, ◌&&◌,
}
use opsiconfd.Prelude.Text.{text_le}
use opsiconfd.Prelude.Sort.{sort}
use opsiconfd.Prelude.Dict.{Dict, insert, remove as remove_key, keys}
use opsiconfd.Messagebus.Data.{Reader}

-- `get_channel_names`
unfoldable pub get_channel_names : Reader → List String
get_channel_names r = keys r.channels

-- `set_channels`
unfoldable pub set_channels : Dict String → Reader → Reader
set_channels d r = record r { channels = d }

-- `dict.update`
unfoldable pub update : Dict String → Dict String → Dict String
update [] d = d
update ((k, v) ∷ e) d = update e (insert k v d)

-- `add_channels`
unfoldable pub add_channels : Dict String → Reader → Reader
add_channels d r = record r { channels = update d r.channels }

unfoldable pub remove_keys : List String → Dict String → Dict String
remove_keys [] d = d
remove_keys (k ∷ ks) d = remove_keys ks (remove_key k d)

-- `remove_channels`
unfoldable pub remove_channels : List String → Reader → Reader
remove_channels ks r = record r { channels = remove_keys ks r.channels }

-- `_get_subscribed_channels`: the last reader of each channel.
unfoldable pub subscribe_all : List String → Reader → Dict Reader → Dict Reader
subscribe_all [] r d = d
subscribe_all (c ∷ cs) r d = subscribe_all cs r (insert c r d)

unfoldable pub subscribed_from : List Reader → Dict Reader → Dict Reader
subscribed_from [] d = d
subscribed_from (r ∷ rs) d = subscribed_from rs (subscribe_all (get_channel_names r) r d)

unfoldable pub get_subscribed_channels : List Reader → Dict Reader
get_subscribed_channels rs = subscribed_from rs []

-- The same strings in the same order.
unfoldable pub eq_list : List String → List String → Bool
eq_list [] [] = true
eq_list (a ∷ xs) (b ∷ ys) = (a == b) && eq_list xs ys
eq_list [] (b ∷ ys) = false
eq_list (a ∷ xs) [] = false

-- `sorted(a) == sorted(b)`
unfoldable pub same_sorted : List String → List String → Bool
same_sorted a b = eq_list (sort text_le a) (sort text_le b)

-- The channels `cs` of a reader are removed: if these are all, the reader is stopped, and nothing is
-- read by it any more.
unfoldable pub remove_from : ℕ → List String → List Reader → List Reader
remove_from n cs [] = []
remove_from n cs (r ∷ rs) =
    if eqb r.ref n
    then (if same_sorted cs (get_channel_names r) then rs else remove_channels cs r ∷ rs)
    else r ∷ remove_from n cs rs

-- A change of the first reader that is not one of a consumer group, if there is one.
unfoldable pub change_plain : (Reader → Reader) → List Reader → Option (List Reader)
change_plain f [] = none
change_plain f (r ∷ rs) = elim r.consumer [
  | none ↦ some (f r ∷ rs)
  | some _ ↦ elim (change_plain f rs) [ none ↦ none | some rs' ↦ some (r ∷ rs') ]
]
