-- ===== src/Signal/Http/Retries.antt =====
-- The retries of a JSON-RPC call: what they give, and how long they last.
use go_signalium.Base.{
  ℕ, zero, suc, ◌+◌, ◌≤◌, ◌≡◌, refl, Bool, false, Option, none, some, List, [], ◌∷◌, arith, All,
  length, if◌then◌else◌, if_elim,
}
use go_signalium.Base.Text.{Text}
use go_signalium.Base.Int.{ℤ}
use go_signalium.Domain.{signal_cli_unavailable, Result, err}
use go_signalium.Signal.Http.{
  HttpAnswer, verdict, next_wait, retry_loop, max_retries_of, call_with_retry,
}

abbrev pub or_unavailable {ℓ} : {A : Type ℓ} → Option (Result A) → Result A
or_unavailable none = err signal_cli_unavailable
or_unavailable (some r) = r

module _ {ℓ} {A : Type ℓ} (decode : Text → Option A) (answers : ℕ → HttpAnswer) where
  -- The first answer from attempt i on that ends a call, of `n` attempts.
  abbrev pub first_verdict : ℕ → ℕ → Option (Result A)
  first_verdict zero i = none
  first_verdict (suc n) i = elim (verdict decode (answers i)) [
    | some r ↦ some r
    | none ↦ first_verdict n (i + 1)
  ]

  retry_loop_lem :
      (ctx_done : ℕ → Bool) (left i wait : ℕ)
      → ((j : ℕ) → ctx_done j ≡ false)
      → (retry_loop decode answers ctx_done left i wait).0
        ≡ or_unavailable (first_verdict (suc left) i)
  unfolding retry_loop
  retry_loop_lem ctx_done zero i wait h = judged (verdict decode (answers i))
    where
      judged :
          (o : Option (Result A))
          → (elim o as (λ _. Result A × List ℕ) [
            | some r ↦ (r, [])
            | none ↦ (err signal_cli_unavailable, [])
          ]).0
            ≡ or_unavailable (elim o as (λ _. Option (Result A)) [ some r ↦ some r | none ↦ none ])
      judged none = refl
      judged (some r) = refl
  retry_loop_lem ctx_done (suc left) i wait h =
      judged (verdict decode (answers i))
        (retry_loop decode answers ctx_done left (i + 1) (next_wait wait))
        (retry_loop_lem ctx_done left (i + 1) (next_wait wait) h)
    where
      judged :
          (o : Option (Result A)) (rest : Result A × List ℕ)
          → rest.0 ≡ or_unavailable (first_verdict (suc left) (i + 1))
          → (elim o as (λ _. Result A × List ℕ) [
            | some r ↦ (r, [])
            | none ↦
                if ctx_done i
                then (err signal_cli_unavailable, wait ∷ [])
                else (rest.0, wait ∷ rest.1)
          ]).0
            ≡ or_unavailable (elim o as (λ _. Option (Result A)) [
              | some r ↦ some r
              | none ↦ first_verdict (suc left) (i + 1)
            ])
      judged none rest e = rw (h i) e
      judged (some r) rest e = refl

  -- While the context lasts, a call gives the first answer below 500 that can be read among its
  -- attempts, one more than its retries, and SignalCliUnavailable where there is none.
  pub call_with_retry_lem :
      (ctx_done : ℕ → Bool) (max_retries : ℤ)
      → ((j : ℕ) → ctx_done j ≡ false)
      → (call_with_retry decode answers ctx_done max_retries).0
        ≡ or_unavailable (first_verdict (suc (max_retries_of max_retries)) 0)
  unfolding call_with_retry
  call_with_retry_lem ctx_done max_retries h =
      retry_loop_lem ctx_done (max_retries_of max_retries) 0 200000000 h

  next_wait-le : (w : ℕ) → next_wait w ≤ 5000000000
  unfolding next_wait
  next_wait-le w = ground arith

  abbrev Brief : ℕ → Result A × List ℕ → Type 0
  Brief n x = (length x.1 ≤ n) × All (λ w. w ≤ 5000000000) x.1

  retry_loop-le :
      (ctx_done : ℕ → Bool) (left i wait : ℕ)
      → wait ≤ 5000000000
      → Brief left (retry_loop decode answers ctx_done left i wait)
  unfolding retry_loop
  retry_loop-le ctx_done zero i wait h = judged (verdict decode (answers i))
    where
      judged :
          (o : Option (Result A))
          → Brief 0 (elim o [ some r ↦ (r, []) | none ↦ (err signal_cli_unavailable, []) ])
      judged none = (omega arith, tt)
      judged (some r) = (omega arith, tt)
  retry_loop-le ctx_done (suc left) i wait h =
      judged (verdict decode (answers i))
        (retry_loop decode answers ctx_done left (i + 1) (next_wait wait))
        (retry_loop-le ctx_done left (i + 1) (next_wait wait) (next_wait-le wait))
    where
      judged :
          (o : Option (Result A)) (rest : Result A × List ℕ)
          → Brief left rest
          → Brief (suc left) (elim o [
            | some r ↦ (r, [])
            | none ↦
                if ctx_done i
                then (err signal_cli_unavailable, wait ∷ [])
                else (rest.0, wait ∷ rest.1)
          ])
      judged none rest b =
          if_elim (Brief (suc left)) (ctx_done i) (err signal_cli_unavailable, wait ∷ [])
            (rest.0, wait ∷ rest.1) (λ _. (omega arith, (h, tt)))
            (λ _. (omega (arith, b.0), (h, b.1)))
      judged (some r) rest b = (omega arith, tt)

  -- A call begins at most as many waits as it has retries, none of them longer than five seconds.
  pub call_with_retry_waits :
      (ctx_done : ℕ → Bool) (max_retries : ℤ)
      → (length (call_with_retry decode answers ctx_done max_retries).1
          ≤ max_retries_of max_retries)
        × All (λ w. w ≤ 5000000000) (call_with_retry decode answers ctx_done max_retries).1
  unfolding call_with_retry
  call_with_retry_waits ctx_done max_retries =
      retry_loop-le ctx_done (max_retries_of max_retries) 0 200000000 (omega arith)
