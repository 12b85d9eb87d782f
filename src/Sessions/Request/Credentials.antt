-- ===== src/Sessions/Request/Credentials.antt =====
-- Names and passwords in the `Authorization` header.
use opsiconfd.Prelude.{suc, ◌+◌, String, ◌≡◌, ◌≢◌, refl, ap, ◌∙◌, arith}
use Prim.Native.String.{◌++◌}
use text.Mathlib.TextLemmas.{nil-append, cons-append}
use opsiconfd.Prelude.Effect.{done}
use opsiconfd.Prelude.Split.{cut, cut_last, count_char}
use opsiconfd.Prelude.Split.Laws.{count-join, cut-join, cut_last-join, count-cut_last}
use opsiconfd.Sessions.Headers.{split_credentials}

module _ (name password : String) where
  joined : (":" ++ password) ≡ String.◌∷◌ ":" password
  joined = cons-append ":" "" password ∙ ap (String.◌∷◌ ":") (nil-append password)

  colons :
      count_char b':' (name ++ ":" ++ password)
      ≡ suc (count_char b':' name + count_char b':' password)
  colons = rw joined (count-join b':' ":" refl name password)

  -- A name without a colon and a password are read back from `name:password`, unless the password
  -- has five colons.
  pub split_credentials-join :
      count_char b':' name ≡ 0
      → count_char b':' password ≢ 5
      → split_credentials (name ++ ":" ++ password) ≡ done (name, password)
  unfolding split_credentials
  split_credentials-join h k =
      let whole = cut-join b':' ":" refl name password h in
      ground (arith, colons, ap (λ t. cut b':' (name ++ t)) joined, whole)

  -- A name with five colons, such as a hardware address, and a password without a colon are read
  -- back.
  pub split_credentials-hardware_address :
      count_char b':' name ≡ 5
      → count_char b':' password ≡ 0
      → split_credentials (name ++ ":" ++ password) ≡ done (name, password)
  unfolding split_credentials
  split_credentials-hardware_address h k =
      let whole = cut_last-join b':' ":" refl name password k in
      ground (arith, colons, ap (λ t. cut_last b':' (name ++ t)) joined, whole)

  -- A password with five colons is not read back: it is split at its last colon.
  pub split_credentials-five_colons :
      count_char b':' name ≡ 0
      → count_char b':' password ≡ 5
      → split_credentials (name ++ ":" ++ password) ≢ done (name, password)
  unfolding split_credentials
  split_credentials-five_colons h k e =
      ground (arith, colons, count-cut_last b':' (name ++ ":" ++ password) name password)
