-- ===== src/Api/Answers.antt =====
-- The calls without arguments, HandleGetInstanceInfo, HandleListGroups and HandleGetSignalMessagesStats
-- of servers.conjure.go, and how the client of services.conjure.go takes an answer. The JSON codec is a
-- parameter; a nil slice is `none` and is written as null.
use go_signalium.Base.{◌≡◌, refl, Option, none, some, List, []}
use go_signalium.Base.Text.{Text}
use go_signalium.Domain.{Result, ok, err}
use go_signalium.Api.Query.{Reply, done, failed, bad_argument, no_path, of_result, ◌>>=◌}

-- What the client returns: the value, or an error with the answer that it got, or with none.
pub data Returned {ℓ} (A : Type ℓ) : Type ℓ where
  value : A → Returned A
  remote_error : Returned A
  malformed : Returned A
  nil_response : Returned A

module _ {ℓ} {A : Type ℓ} where
  -- codecs.JSON.Encode
  abbrev pub encoded : (A → Text) → Reply A → Reply Text
  encoded encode r = do a ← r; done (encode a)

  unfoldable pub handle_get_instance_info : (A → Text) → Result A → Reply Text
  handle_get_instance_info encode impl = encoded encode (of_result impl)

  unfoldable pub handle_get_signal_messages_stats : (A → Text) → Result A → Reply Text
  handle_get_signal_messages_stats encode impl = encoded encode (of_result impl)

  -- if respArg == nil { respArg = make([]SignalGroupInfo, 0) }
  abbrev pub made : Option (List A) → Option (List A)
  made none = some []
  made (some xs) = some xs

  unfoldable pub handle_list_groups :
      (Option (List A) → Text) → Result (Option (List A)) → Reply Text
  handle_list_groups encode impl = do groups ← of_result impl; done (encode (made groups))

  -- The end of a client's method: the error of the call, a nil answer, or the answer.
  abbrev not_nil : Option (Option A) → Returned A
  not_nil none = malformed
  not_nil (some none) = nil_response
  not_nil (some (some a)) = value a

  unfoldable pub receive : (Text → Option (Option A)) → Reply Text → Returned A
  receive decode (done body) = not_nil (decode body)
  receive decode (failed x) = remote_error
  receive decode (bad_argument t) = remote_error
  receive decode no_path = remote_error

abbrev or_empty {ℓ} : {A : Type ℓ} → Option (List A) → List A
or_empty none = []
or_empty (some xs) = xs

abbrev pub returned {ℓ} : {A : Type ℓ} → Result (Option (List A)) → Returned (List A)
returned (ok groups) = value (or_empty groups)
returned (err x) = remote_error

-- A client of ListGroups gets the groups that the implementation gives, the empty list where it gives
-- a nil slice, and an error exactly where the implementation fails: no list that is given comes out as
-- a nil answer. The codec reads what it wrote.
pub list_groups_reach {ℓ} :
    {A : Type ℓ} (encode : Option (List A) → Text) (decode : Text → Option (Option (List A)))
    (impl : Result (Option (List A)))
    → ((x : Option (List A)) → decode (encode x) ≡ some x)
    → receive decode (handle_list_groups encode impl) ≡ returned impl
unfolding receive handle_list_groups
list_groups_reach encode decode (err x) back = refl
list_groups_reach encode decode (ok none) back = rw (back (some [])) refl
list_groups_reach encode decode (ok (some xs)) back = rw (back (some xs)) refl
