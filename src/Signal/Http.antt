-- ===== src/Signal/Http.antt =====
-- internal/signal/http_client.go: the JSON-RPC call that is retried, and the listing of groups. What
-- the daemon does at each attempt, and the decoder of its body, are parameters.
pub mod Retries
use go_signalium.Base.{
  ℕ, zero, suc, ◌+◌, ◌-◌, ◌*◌, Bool, true, false, not, Option, none, some, List, [], ◌∷◌, map, ltb,
  leb, if◌then◌else◌,
}
use go_signalium.Base.Text.{Text, is_set}
use go_signalium.Base.Int.{ℤ, pos, negsuc}
use go_signalium.Domain.{Err, remote, signal_cli_unavailable, Result, ok, err}

-- An attempt: no answer, a status whose body could not be read, or a status with a body.
pub data HttpAnswer : Type 0 where
  unreachable : HttpAnswer
  unread : ℕ → HttpAnswer
  replied : ℕ → Text → HttpAnswer

-- An answer that ends the call; a 5xx, an unread body and no answer do not.
unfoldable pub verdict {ℓ} : {A : Type ℓ} → (Text → Option A) → HttpAnswer → Option (Result A)
verdict decode unreachable = none
verdict decode (unread status) = none
verdict decode (replied status body) =
    if ltb status 500
    then if leb 400 status
      then some (err remote)
      else elim (decode body) [ none ↦ some (err remote) | some a ↦ some (ok a) ]
    else none

-- backoff *= 2, at most 5 s, in nanoseconds
unfoldable pub next_wait : ℕ → ℕ
next_wait w = if ltb 5000000000 (w * 2) then 5000000000 else w * 2

-- The loop, `left` attempts before its end: the result, and the waits that were begun.
unfoldable pub retry_loop {ℓ} :
    {A : Type ℓ} → (Text → Option A) → (ℕ → HttpAnswer) → (ℕ → Bool) → ℕ → ℕ → ℕ → Result A × List ℕ
unfolding verdict next_wait
retry_loop decode answers ctx_done zero i wait = elim (verdict decode (answers i)) [
  | some r ↦ (r, [])
  | none ↦ (err signal_cli_unavailable, [])
]
retry_loop decode answers ctx_done (suc left) i wait = elim (verdict decode (answers i)) [
  | some r ↦ (r, [])
  | none ↦
      let (r, waits) = retry_loop decode answers ctx_done left (i + 1) (next_wait wait) in
      if ctx_done i then (err signal_cli_unavailable, wait ∷ []) else (r, wait ∷ waits)
]

-- MaxRetries, or 3
unfoldable pub max_retries_of : ℤ → ℕ
max_retries_of (pos n) = if ltb 0 n then n else 3
max_retries_of (negsuc n) = 3

unfoldable pub call_with_retry {ℓ} :
    {A : Type ℓ} → (Text → Option A) → (ℕ → HttpAnswer) → (ℕ → Bool) → ℤ → Result A × List ℕ
unfolding retry_loop max_retries_of
call_with_retry decode answers ctx_done max_retries =
    retry_loop decode answers ctx_done (max_retries_of max_retries) 0 200000000

pub record GroupMember : Type 0 where
  pub number : Option Text
  pub uuid : Text

pub record ListedGroup : Type 0 where
  pub id : Text
  pub name : Text
  pub description : Text
  pub members : List GroupMember

-- listGroupsResponse: whether it has an error, and its result.
pub record ListGroupsResponse : Type 0 where
  pub failed : Bool
  pub result : List ListedGroup

pub record SignalGroupInfo : Type 0 where
  pub id : Text
  pub name : Text
  pub description : Option Text
  pub members : Option (List Text)

abbrev or_empty : Option Text → Text
or_empty none = []
or_empty (some t) = t

-- The name of a member: its number, else its uuid; a member with neither is left out.
unfoldable pub member_names : List GroupMember → List Text
member_names [] = []
member_names (m ∷ ms) =
    let rest = member_names ms in
    if is_set m.number
    then or_empty m.number ∷ rest
    else if is_set (some m.uuid)
    then m.uuid ∷ rest
    else rest

abbrev listed : List GroupMember → Option (List Text)
listed [] = none
listed (m ∷ ms) = some (member_names (m ∷ ms))

-- mapListedGroup
unfoldable pub map_listed_group : ListedGroup → SignalGroupInfo
unfolding member_names
map_listed_group g = record {
  id = g.id;
  name = g.name;
  description = if is_set (some g.description) then some g.description else none;
  members = listed g.members;
}

abbrev pub groups_of : Result ListGroupsResponse → Result (List SignalGroupInfo)
groups_of (err x) = err x
groups_of (ok r) = if r.failed then err remote else ok (map map_listed_group r.result)

-- ListGroups
unfoldable pub list_groups :
    (Text → Option ListGroupsResponse)
    → (ℕ → HttpAnswer)
    → (ℕ → Bool)
    → ℤ
    → Result (List SignalGroupInfo)
unfolding call_with_retry map_listed_group
list_groups decode answers ctx_done max_retries =
    groups_of (call_with_retry decode answers ctx_done max_retries).0
