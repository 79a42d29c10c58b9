-- ===== src/Handler/Proxy/Groups.antt =====
-- What ListGroups of internal/handler/signal_messages.go answers, by the attempts of the call that it makes.
use mathlib.Core.Path.{subst}
use go_signalium.Base.{
  zero, ◌+◌, ◌≤◌, ◌<◌, ◌⊎◌, inl, inr, Bool-cases, ltb, leb, ◌==◌, if_elim, arith, ℕ, suc, ◌≡◌, refl,
  sym, Bool, true, false, Option, none, some, List, map,
}
use go_signalium.Base.Text.{Text}
use go_signalium.Base.Int.{ℤ, pos, negsuc}
use go_signalium.Domain.{Err, Result, ok, err, signal_cli_unavailable, internal_service_error}
use go_signalium.Signal.Http.{
  HttpAnswer, unreachable, unread, replied, verdict, ListGroupsResponse, SignalGroupInfo,
  map_listed_group, max_retries_of,
}
use go_signalium.Signal.Http.Retries.{first_verdict}
use go_signalium.Handler.{map_to_conjure_error}
use go_signalium.Handler.Proxy.{list_groups, answer_of, list_groups_lem}
use go_signalium.Signal.Http.Retries.{first_verdict}

-- An attempt after which the call is tried again.
pub data Fails : HttpAnswer → Type 0 where
  no_answer : Fails unreachable
  cut : (status : ℕ) → Fails (unread status)
  server_error : {status : ℕ} (body : Text) → 500 ≤ status → Fails (replied status body)

-- What an attempt that is not tried again makes of the endpoint.
pub data Answers (decode : Text → Option ListGroupsResponse)
    : HttpAnswer → Result (List SignalGroupInfo) → Type 0 where
  rejected :
      {status : ℕ} (body : Text)
      → 400 ≤ status
      → status < 500
      → Answers decode (replied status body) (err internal_service_error)
  garbled :
      {status : ℕ} (body : Text)
      → status < 400
      → decode body ≡ none
      → Answers decode (replied status body) (err internal_service_error)
  failed :
      {status : ℕ} {r : ListGroupsResponse} (body : Text)
      → status < 400
      → decode body ≡ some r
      → r.failed ≡ true
      → Answers decode (replied status body) (err internal_service_error)
  listed :
      {status : ℕ} {r : ListGroupsResponse} (body : Text)
      → status < 400
      → decode body ≡ some r
      → r.failed ≡ false
      → Answers decode (replied status body) (ok (map map_listed_group r.result))

-- The answer is that of attempt k, the ones before which failed; or all the attempts failed.
abbrev pub Outcome :
    (Text → Option ListGroupsResponse)
    → (ℕ → HttpAnswer)
    → ℕ
    → ℕ
    → Result (List SignalGroupInfo)
    → Type 0
Outcome decode answers i n r =
    ((k : ℕ) × (i ≤ k)
      × (k < i + n)
      × ((j : ℕ) → i ≤ j → j < k → Fails (answers j))
      × Answers decode (answers k) r)
    ⊎ (((j : ℕ) → i ≤ j → j < i + n → Fails (answers j)) × (r ≡ err signal_cli_unavailable))

module _ (decode : Text → Option ListGroupsResponse) where
  -- How an attempt is judged.
  judge :
      (a : HttpAnswer)
      → ((verdict decode a ≡ none) × Fails a)
        ⊎ ((v : Result ListGroupsResponse) × (verdict decode a ≡ some v)
            × Answers decode a (answer_of (some v)))
  unfolding verdict map_to_conjure_error
  judge unreachable = inl (refl, no_answer)
  judge (unread status) = inl (refl, cut status)
  judge (replied status body) = elim (Bool-cases (ltb status 500)) [
    | inr e ↦ inl (rw e refl, server_error body (ground arith))
    | inl e ↦ elim (Bool-cases (leb 400 status)) [
      | inl f ↦ inr (err Err.remote, rw (e, f) refl, rejected body (ground arith) (ground arith))
      | inr f ↦ decoded e f (decode body) refl
    ]
  ]
    where
      shown :
          (r : ListGroupsResponse)
          → status < 400
          → decode body ≡ some r
          → Answers decode (replied status body) (answer_of (some (ok r)))
      shown r l h =
          if_elim (Answers decode (replied status body)) r.failed (err internal_service_error)
            (ok (map map_listed_group r.result)) (λ f. failed body l h f) (λ f. listed body l h f)

      decoded :
          ltb status 500 ≡ true
          → leb 400 status ≡ false
          → (o : Option ListGroupsResponse) → decode body ≡ o
          → ((verdict decode (replied status body) ≡ none) × Fails (replied status body))
            ⊎ ((v : Result ListGroupsResponse) × (verdict decode (replied status body) ≡ some v)
                × Answers decode (replied status body) (answer_of (some v)))
      decoded e f none h = inr (err Err.remote, rw (e, f, h) refl, garbled body (ground arith) h)
      decoded e f (some r) h = inr (ok r, rw (e, f, h) refl, shown r (ground arith) h)

  first_some :
      (answers : ℕ → HttpAnswer) (n i : ℕ) (v : Result ListGroupsResponse)
      → verdict decode (answers i) ≡ some v
      → first_verdict decode answers (suc n) i ≡ some v
  first_some answers n i v e = rw (e, first_verdict) refl

  first_none :
      (answers : ℕ → HttpAnswer) (n i : ℕ)
      → verdict decode (answers i) ≡ none
      → first_verdict decode answers (suc n) i ≡ first_verdict decode answers n (i + 1)
  first_none answers n i e = rw (e, first_verdict) refl

  first_Outcome :
      (answers : ℕ → HttpAnswer) (n i : ℕ)
      → Outcome decode answers i n (answer_of (first_verdict decode answers n i))
  first_Outcome answers zero i = inr (λ j a b. absurd (omega arith), refl)
  first_Outcome answers (suc n) i = elim (judge (answers i)) [
    | inr (v, e, a) ↦ inl (
      i,
      omega arith,
      omega arith,
      λ j p q. absurd (omega arith),
      subst (λ o. Answers decode (answers i) (answer_of o)) (sym (first_some answers n i v e)) a,
    )
    | inl (e, f) ↦
        subst (λ o. Outcome decode answers i (suc n) (answer_of o)) (sym (first_none answers n i e))
          (later f (first_Outcome answers n (i + 1)))
  ]
    where
      before :
          (k : ℕ)
          → Fails (answers i)
          → ((j : ℕ) → i + 1 ≤ j → j < k → Fails (answers j))
          → (j : ℕ) → i ≤ j
          → j < k
          → Fails (answers j)
      before k f g j p q = elim (Bool-cases (i == j)) [
        | inl e ↦ let same : i ≡ j = ground arith in subst (λ x. Fails (answers x)) same f
        | inr e ↦ g j (ground arith) q
      ]

      later :
          {r : Result (List SignalGroupInfo)}
          → Fails (answers i)
          → Outcome decode answers (i + 1) n r
          → Outcome decode answers i (suc n) r
      later f (inl (k, p, q, g, a)) = inl (k, omega arith, omega arith, before k f g, a)
      later f (inr (g, e)) =
          inr (λ j p q. before (i + suc n) f (λ x y z. g x y (omega arith)) j p q, e)

-- The retries that a configuration asks for: 3 where it asks for none.
abbrev pub retries : ℤ → ℕ
retries (pos zero) = 3
retries (pos (suc n)) = suc n
retries (negsuc n) = 3

max_retries_of-retries : (k : ℤ) → max_retries_of k ≡ retries k
unfolding max_retries_of
max_retries_of-retries (pos zero) = refl
max_retries_of-retries (pos (suc n)) = ground arith
max_retries_of-retries (negsuc n) = refl

-- While the context lasts, the endpoint of groups makes at most one attempt more than the configured
-- retries, 3 where none are configured, and answers by the first that has a status below 500 and a body:
-- InternalServiceError where the status is 400 or more, the body cannot be decoded or has an error, and
-- else its groups; and SignalCliUnavailable where every attempt fails.
pub list_groups_answers :
    (decode : Text → Option ListGroupsResponse) (answers : ℕ → HttpAnswer) (ctx_done : ℕ → Bool)
    (max_retries : ℤ)
    → ((j : ℕ) → ctx_done j ≡ false)
    → Outcome decode answers 0
        (suc (retries max_retries))
        (list_groups decode answers ctx_done max_retries)
list_groups_answers decode answers ctx_done max_retries h =
    subst (λ n. Outcome decode answers 0 (suc n) (list_groups decode answers ctx_done max_retries))
      (max_retries_of-retries max_retries)
      (rw (list_groups_lem decode answers ctx_done max_retries h)
        (first_Outcome decode answers (suc (max_retries_of max_retries)) 0))
