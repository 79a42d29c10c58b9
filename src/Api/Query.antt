-- ===== src/Api/Query.antt =====
-- The query of listSignalMessages: HandleListSignalMessages of servers.conjure.go reads it, and
-- ListSignalMessages of services.conjure.go writes it. The dates of github.com/palantir/pkg/datetime
-- are parameters.
pub mod RoundTrip
pub mod UnknownStatus
use go_signalium.Base.{ℕ, Option, none, some, List, [], ◌∷◌, if◌then◌else◌}
use go_signalium.Base.Text.{Text, codes, text_eq}
use go_signalium.Base.Int.{ℤ}
use go_signalium.Base.Decimal.{format_int, parse_int}
use go_signalium.Domain.{Err, Result, ok, err}
use go_signalium.Handler.{ListQuery}
use go_signalium.Api.Status.{unmarshal_text, conjure_to_domain_status}

-- What a handler ends with: the answer, the error of the implementation, or an error of its own, which
-- is InvalidArgument with what could not be read, or Internal where no router set the path.
pub data Reply {ℓ} (A : Type ℓ) : Type ℓ where
  done : A → Reply A
  failed : Err → Reply A
  bad_argument : Text → Reply A
  no_path : Reply A

infixl 5 ◌>>=◌
abbrev pub ◌>>=◌ {ℓ κ} : {A : Type ℓ} {B : Type κ} → Reply A → (A → Reply B) → Reply B
done a >>= f = f a
failed x >>= f = failed x
bad_argument t >>= f = bad_argument t
no_path >>= f = no_path

abbrev pub of_result {ℓ} : {A : Type ℓ} → Result A → Reply A
of_result (ok a) = done a
of_result (err x) = failed x

-- url.Values, with one value to a key: Get, which is "" where the key is not there, and Set.
abbrev pub Values : Type 0
Values = List (Text × Text)

unfoldable pub get : Text → Values → Text
get k [] = []
get k ((j, t) ∷ v) = if text_eq j k then t else get k v

unfoldable pub set : Text → Text → Values → Values
set k t [] = (k, t) ∷ []
set k t ((j, u) ∷ v) = if text_eq j k then (k, t) ∷ v else (j, u) ∷ set k t v

-- The arguments of ListSignalMessages as the generated code passes them.
pub record ListArgs : Type 0 where
  pub q : Option Text
  pub limit : Option ℤ
  pub offset : Option ℤ
  pub created_at_from : Option ℕ
  pub created_at_to : Option ℕ
  pub status : Option Text
  pub attempts : Option ℤ

-- A parameter that is empty is not there.
abbrev pub non_empty : Text → Option Text
non_empty [] = none
non_empty (b ∷ t) = some (b ∷ t)

abbrev pub read_as {ℓ} : {A : Type ℓ} → Text → Option A → Reply (Option A)
read_as name none = bad_argument name
read_as name (some a) = done (some a)

abbrev pub optional {ℓ} : {A : Type ℓ} → (Text → Option A) → Text → Option Text → Reply (Option A)
optional parse name none = done none
optional parse name (some t) = read_as name (parse t)

unfoldable pub list_args : (Text → Option ℕ) → (Text → Text) → Values → Reply ListArgs
list_args parse_date_time unicode v = do
  limit ← optional parse_int (codes "limit") (non_empty (get (codes "limit") v))
  offset ← optional parse_int (codes "offset") (non_empty (get (codes "offset") v))
  from ←
      optional parse_date_time (codes "createdAtFrom") (non_empty (get (codes "createdAtFrom") v))
  to ← optional parse_date_time (codes "createdAtTo") (non_empty (get (codes "createdAtTo") v))
  status ←
      optional (λ t. some (unmarshal_text unicode t)) (codes "status")
        (non_empty (get (codes "status") v))
  attempts ← optional parse_int (codes "attempts") (non_empty (get (codes "attempts") v))
  done (record {
    q = non_empty (get (codes "q") v);
    limit = limit;
    offset = offset;
    created_at_from = from;
    created_at_to = to;
    status = status;
    attempts = attempts;
  })

-- HandleListSignalMessages, before the answer is encoded
unfoldable pub handle_list_signal_messages {ℓ} :
    {A : Type ℓ} → (Text → Option ℕ) → (Text → Text) → (ListArgs → Result A) → Values → Reply A
unfolding list_args
handle_list_signal_messages parse_date_time unicode impl v = do
  args ← list_args parse_date_time unicode v
  of_result (impl args)

-- if arg != nil { queryParams.Set(name, fmt.Sprint(*arg)) }
abbrev pub set_optional {ℓ} : {A : Type ℓ} → Text → (A → Text) → Option A → Values → Values
set_optional name print none v = v
set_optional name print (some a) v = set name (print a) v

-- ListSignalMessages of the client
unfoldable pub query_params : (ℕ → Text) → ListArgs → Values
query_params print_date_time a = set_optional (codes "attempts") format_int a.attempts (
    set_optional (codes "status") (λ t. t) a.status
      (set_optional (codes "createdAtTo") print_date_time a.created_at_to (
        set_optional (codes "createdAtFrom") print_date_time a.created_at_from (
          set_optional (codes "offset") format_int a.offset (
            set_optional (codes "limit") format_int a.limit
              (set_optional (codes "q") (λ t. t) a.q []))))))

-- The parameters of ListSignalMessages of internal/handler, past conjureToDomainStatus.
unfoldable pub list_query : ListArgs → ListQuery
unfolding conjure_to_domain_status
list_query a = record {
  q = a.q;
  limit = a.limit;
  offset = a.offset;
  created_at_from = a.created_at_from;
  created_at_to = a.created_at_to;
  status = conjure_to_domain_status a.status;
  attempts = a.attempts;
}
