-- ===== src/Handler/Proxy.antt =====
-- ListGroups and GetInstanceInfo of internal/handler/signal_messages.go.
pub mod Groups
use mathlib.Core.Path.{subst}
use go_signalium.Base.{
  zero, ◌+◌, ◌≤◌, ◌<◌, ◌⊎◌, inl, inr, Bool-cases, ltb, leb, ◌==◌, if_elim, arith, ℕ, suc, ◌≡◌, refl,
  sym, ap, ◌∙◌, Bool, true, false, Option, none, some, List, map, if◌then◌else◌,
}
use go_signalium.Base.Text.{Text}
use go_signalium.Base.Int.{ℤ, pos, negsuc}
use go_signalium.Domain.{Err, Result, ok, err, signal_cli_unavailable, internal_service_error}
use go_signalium.Signal.Http.{
  HttpAnswer, unreachable, unread, replied, verdict, ListGroupsResponse, SignalGroupInfo,
  map_listed_group, max_retries_of, call_with_retry, groups_of,
}
use go_signalium.Signal.Http
use go_signalium.Signal.Http.Retries.{first_verdict, or_unavailable, call_with_retry_lem}
use go_signalium.Handler.{map_to_conjure_error}

pub record InstanceInfo : Type 0 where
  pub name : Text
  pub sender_phone_number : Text

-- GetInstanceInfo, of the product's name and the account
unfoldable pub get_instance_info : Text → Text → InstanceInfo
get_instance_info product account = record { name = product; sender_phone_number = account }

abbrev pub respond_groups : Result (List SignalGroupInfo) → Result (List SignalGroupInfo)
respond_groups (err x) = err (map_to_conjure_error x)
respond_groups (ok gs) = ok gs

-- ListGroups
unfoldable pub list_groups :
    (Text → Option ListGroupsResponse)
    → (ℕ → HttpAnswer)
    → (ℕ → Bool)
    → ℤ
    → Result (List SignalGroupInfo)
unfolding map_to_conjure_error
list_groups decode answers ctx_done max_retries =
    respond_groups (Http.list_groups decode answers ctx_done max_retries)

-- The answer by the first attempt that ends the call.
abbrev pub answer_of : Option (Result ListGroupsResponse) → Result (List SignalGroupInfo)
answer_of none = err signal_cli_unavailable
answer_of (some (err x)) = err (map_to_conjure_error x)
answer_of (some (ok r)) =
    if r.failed then err internal_service_error else ok (map map_listed_group r.result)

answer_of-groups_of :
    (o : Option (Result ListGroupsResponse))
    → respond_groups (groups_of (or_unavailable o)) ≡ answer_of o
unfolding map_to_conjure_error
answer_of-groups_of none = refl
answer_of-groups_of (some (err x)) = refl
answer_of-groups_of (some (ok r)) = failed r.failed
  where
    failed :
        (b : Bool)
        → respond_groups (if b then err Err.remote else ok (map map_listed_group r.result))
          ≡ (if b then err internal_service_error else ok (map map_listed_group r.result))
    failed true = refl
    failed false = refl

-- While the context lasts, the endpoint answers by the first attempt that ends the call.
pub list_groups_lem :
    (decode : Text → Option ListGroupsResponse) (answers : ℕ → HttpAnswer) (ctx_done : ℕ → Bool)
    (max_retries : ℤ)
    → ((j : ℕ) → ctx_done j ≡ false)
    → list_groups decode answers ctx_done max_retries
      ≡ answer_of (first_verdict decode answers (suc (max_retries_of max_retries)) 0)
unfolding list_groups Http.list_groups
list_groups_lem decode answers ctx_done max_retries h =
    ap (λ r. respond_groups (groups_of r))
      (call_with_retry_lem decode answers ctx_done max_retries h)
    ∙ answer_of-groups_of (first_verdict decode answers (suc (max_retries_of max_retries)) 0)
