-- ===== src/Api/Query/RoundTrip.antt =====
-- What a client asks for in a query is what the server's handler is called with.
use go_signalium.Base.{ℕ, ◌≡◌, refl, true, Option, none, some, [], ◌∷◌, arith, if◌then◌else◌}
use go_signalium.Base.Text.{Text, codes, text_eq, text_eq_iff, is_set}
use go_signalium.Base.Int.{ℤ}
use go_signalium.Base.Decimal.{
  format_int, parse_int, IsInt64, parse_int-format_int, is_set-format_int,
}
use go_signalium.Domain.{Result}
use go_signalium.Api.Status.{unmarshal_text, unmarshal_text_lem, to_upper}
use go_signalium.Api.Query.{
  done, of_result, Values, get, set, ListArgs, non_empty, optional, handle_list_signal_messages,
  set_optional, query_params,
}

get-set : (k j t : Text) (v : Values) → get k (set j t v) ≡ (if text_eq j k then t else get k v)
unfolding get set
get-set k j t [] = refl
get-set k j t ((i, u) ∷ v) =
    ground (arith, get-set k j t v, text_eq_iff i j, text_eq_iff j k, text_eq_iff i k)

abbrev or_get {ℓ} : {A : Type ℓ} → (A → Text) → Option A → Text → Text
or_get print none t = t
or_get print (some a) t = print a

get-set_optional {ℓ} :
    {A : Type ℓ} (k j : Text) (print : A → Text) (o : Option A) (v : Values)
    → get k (set_optional j print o v) ≡ (if text_eq j k then or_get print o (get k v) else get k v)
get-set_optional k j print none v = ground arith
get-set_optional k j print (some a) v = get-set k j (print a) v

module _ (print_date_time : ℕ → Text) (a : ListArgs) where
  -- Each parameter is found as it was printed.
  get-query_params :
      (get (codes "q") (query_params print_date_time a) ≡ or_get (λ t. t) a.q [])
      × (get (codes "limit") (query_params print_date_time a) ≡ or_get format_int a.limit [])
      × (get (codes "offset") (query_params print_date_time a) ≡ or_get format_int a.offset [])
      × (get (codes "createdAtFrom") (query_params print_date_time a)
          ≡ or_get print_date_time a.created_at_from [])
      × (get (codes "createdAtTo") (query_params print_date_time a)
          ≡ or_get print_date_time a.created_at_to [])
      × (get (codes "status") (query_params print_date_time a) ≡ or_get (λ t. t) a.status [])
      × (get (codes "attempts") (query_params print_date_time a) ≡ or_get format_int a.attempts [])
  unfolding query_params text_eq get
  get-query_params = (
    simp get-set_optional,
    simp get-set_optional,
    simp get-set_optional,
    simp get-set_optional,
    simp get-set_optional,
    simp get-set_optional,
    simp get-set_optional,
  )

set_text : (t : Text) → is_set (some t) ≡ true → non_empty t ≡ some t
unfolding is_set
set_text [] h = absurd (ground arith)
set_text (b ∷ t) h = refl

-- A value that is printed as a text which is not empty is read back.
optional-printed {ℓ} :
    {A : Type ℓ} (parse : Text → Option A) (print : A → Text) (name : Text) (o : Option A)
    → ((x : A) → o ≡ some x → (parse (print x) ≡ some x) × (is_set (some (print x)) ≡ true))
    → optional parse name (non_empty (or_get print o [])) ≡ done o
optional-printed parse print name none h = refl
optional-printed parse print name (some x) h =
    let (p, s) = h x refl in rw (set_text (print x) s) (rw p refl)

abbrev InRange : Option ℤ → Type 0
InRange none = Unit
InRange (some z) = IsInt64 z

optional-int :
    (name : Text) (o : Option ℤ)
    → InRange o
    → optional parse_int name (non_empty (or_get format_int o [])) ≡ done o
optional-int name none h = refl
optional-int name (some z) h =
    rw (set_text (format_int z) (is_set-format_int z)) (rw (parse_int-format_int z h) refl)

-- What arrives of a text: nothing of an empty one.
abbrev pub of_text : Option Text → Option Text
of_text none = none
of_text (some t) = non_empty t

non_empty-or_get : (o : Option Text) → non_empty (or_get (λ t. t) o []) ≡ of_text o
non_empty-or_get none = refl
non_empty-or_get (some t) = refl

-- The status arrives in capitals.
abbrev pub in_capitals : (Text → Text) → Option Text → Option Text
in_capitals unicode none = none
in_capitals unicode (some t) = some (to_upper unicode t)

optional-status :
    (unicode : Text → Text) (name : Text) (o : Option Text)
    → optional (λ t. some (unmarshal_text unicode t)) name o ≡ done (in_capitals unicode o)
optional-status unicode name none = refl
optional-status unicode name (some t) = rw (unmarshal_text_lem unicode t) refl

abbrev pub received : (Text → Text) → ListArgs → ListArgs
received unicode a = record a { q = of_text a.q; status = in_capitals unicode (of_text a.status) }

-- The numbers of a Go program on 64 bits.
abbrev pub IsInRange : ListArgs → Type 0
IsInRange a = InRange a.limit × InRange a.offset × InRange a.attempts

module _ (print_date_time : ℕ → Text) (parse_date_time : Text → Option ℕ) (unicode : Text → Text)
    (carry : Values → Values) where
  -- What the client's generated code asks for is what the server's calls the implementation with: the
  -- numbers and the dates as they are, the status in capitals, and nothing for an empty text. It is
  -- never refused. The URL carries each parameter, and the dates are read as they are printed.
  pub list_round_trip {ℓ} :
      {A : Type ℓ} (impl : ListArgs → Result A) (a : ListArgs)
      → ((k : Text) (v : Values) → get k (carry v) ≡ get k v)
      → ((t : ℕ)
          → (parse_date_time (print_date_time t) ≡ some t)
            × (is_set (some (print_date_time t)) ≡ true))
      → IsInRange a
      → handle_list_signal_messages parse_date_time unicode impl
          (carry (query_params print_date_time a))
        ≡ of_result (impl (received unicode a))
  unfolding handle_list_signal_messages
  list_round_trip impl a carried dates (l, o, n) =
      let (eq, el, eo, ef, et, es, en) = get-query_params print_date_time a in
      rw
        (
          carried (codes "q") (query_params print_date_time a),
          carried (codes "limit") (query_params print_date_time a),
          carried (codes "offset") (query_params print_date_time a),
          carried (codes "createdAtFrom") (query_params print_date_time a),
          carried (codes "createdAtTo") (query_params print_date_time a),
          carried (codes "status") (query_params print_date_time a),
          carried (codes "attempts") (query_params print_date_time a),
          eq,
          el,
          eo,
          ef,
          et,
          es,
          en,
          optional-int (codes "limit") a.limit l,
          optional-int (codes "offset") a.offset o,
          optional-int (codes "attempts") a.attempts n,
          optional-printed parse_date_time print_date_time (codes "createdAtFrom") a.created_at_from
              (λ x _. dates x),
          optional-printed parse_date_time print_date_time (codes "createdAtTo") a.created_at_to
              (λ x _. dates x),
          non_empty-or_get a.q,
          non_empty-or_get a.status,
          optional-status unicode (codes "status") (of_text a.status),
        )
        refl
