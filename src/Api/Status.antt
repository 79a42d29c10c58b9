-- ===== src/Api/Status.antt =====
-- enums.conjure.go, and conjureToDomainStatus of internal/handler/helpers.go: the status as a caller
-- writes it, and the value that the listing filters by.
use go_signalium.Base.{
  ◌-◌, ◌≡◌, refl, Bool, true, false, ◌&&◌, ◌||◌, not, Option, none, some, List, [], ◌∷◌, ltb, leb,
  if◌then◌else◌, arith,
}
use go_signalium.Base.Text.{Text, codes, text_eq, text_eq_iff}
use go_signalium.Domain.{
  Status, pending, sending, sent, failed, permanent_failed, timed_out, unknown,
}
use go_signalium.Domain.StatusText.{value, scan, is_known}

-- SignalMessageStatus_Values
unfoldable pub known_values : List Text
known_values =
    codes "PENDING"
    ∷ codes "SENDING"
    ∷ codes "SENT"
    ∷ codes "FAILED"
    ∷ codes "PERMANENT_FAILED"
    ∷ codes "TIMED_OUT"
    ∷ []

abbrev pub is_one_of : Text → List Text → Bool
is_one_of t [] = false
is_one_of t (s ∷ ss) = text_eq t s || is_one_of t ss

-- IsUnknown, Value
unfoldable pub is_unknown : Text → Bool
unfolding known_values
is_unknown val = not (is_one_of val known_values)

unfoldable pub value_of : Text → Text
unfolding is_unknown
value_of val = if is_unknown val then codes "UNKNOWN" else val

-- strings.ToUpper: byte by byte for a text in ASCII, and by the tables of Unicode for another.
abbrev is_ascii : Text → Bool
is_ascii [] = true
is_ascii (b ∷ t) = ltb b 128 && is_ascii t

abbrev upper_bytes : Text → Text
upper_bytes [] = []
upper_bytes (b ∷ t) = (if leb 97 b && leb b 122 then b - 32 else b) ∷ upper_bytes t

unfoldable pub to_upper : (Text → Text) → Text → Text
to_upper unicode t = if is_ascii t then upper_bytes t else unicode t

-- UnmarshalText. Every text is taken.
abbrev of_upper : Text → Text
of_upper v =
    if text_eq v (codes "PENDING")
    then codes "PENDING"
    else if text_eq v (codes "SENDING")
    then codes "SENDING"
    else if text_eq v (codes "SENT")
    then codes "SENT"
    else if text_eq v (codes "FAILED")
    then codes "FAILED"
    else if text_eq v (codes "PERMANENT_FAILED")
    then codes "PERMANENT_FAILED"
    else if text_eq v (codes "TIMED_OUT")
    then codes "TIMED_OUT"
    else v

unfoldable pub unmarshal_text : (Text → Text) → Text → Text
unfolding to_upper
unmarshal_text unicode t = of_upper (to_upper unicode t)

-- conjureToDomainStatus: a domain status is any text.
unfoldable pub conjure_to_domain_status : Option Text → Option Status
unfolding value_of
conjure_to_domain_status none = none
conjure_to_domain_status (some val) = some (scan (value_of val))

of_upper_lem : (v : Text) → of_upper v ≡ v
of_upper_lem v = ground (
  arith,
  text_eq_iff v (codes "PENDING"),
  text_eq_iff v (codes "SENDING"),
  text_eq_iff v (codes "SENT"),
  text_eq_iff v (codes "FAILED"),
  text_eq_iff v (codes "PERMANENT_FAILED"),
  text_eq_iff v (codes "TIMED_OUT"),
)

pub unmarshal_text_lem :
    (unicode : Text → Text) (t : Text) → unmarshal_text unicode t ≡ to_upper unicode t
unfolding unmarshal_text
unmarshal_text_lem unicode t = of_upper_lem (to_upper unicode t)

-- The status that a caller's text filters by: one of the enumeration, or UNKNOWN.
unfoldable pub filter_of : Text → Status
filter_of v = if is_known (scan v) then scan v else unknown (codes "UNKNOWN")

pub filter-known : (v : Text) → conjure_to_domain_status (some v) ≡ some (filter_of v)
unfolding conjure_to_domain_status filter_of value_of is_unknown known_values scan text_eq
filter-known v = ground (
  arith,
  text_eq_iff v (codes "PENDING"),
  text_eq_iff v (codes "SENDING"),
  text_eq_iff v (codes "SENT"),
  text_eq_iff v (codes "FAILED"),
  text_eq_iff v (codes "PERMANENT_FAILED"),
  text_eq_iff v (codes "TIMED_OUT"),
)

-- Whatever text a caller gives as a status, the listing filters by the status of the enumeration with
-- that name, in any case of its letters, or by UNKNOWN.
pub parsed_filter :
    (unicode : Text → Text) (t : Text)
    → conjure_to_domain_status (some (unmarshal_text unicode t))
      ≡ some (filter_of (to_upper unicode t))
parsed_filter unicode t = rw (unmarshal_text_lem unicode t) (filter-known (to_upper unicode t))

-- The text of a status of the enumeration is its own capitals.
pub to_upper-value :
    (unicode : Text → Text) (s : Status) → is_known s ≡ true → to_upper unicode (value s) ≡ value s
unfolding to_upper value
to_upper-value unicode pending h = refl
to_upper-value unicode sending h = refl
to_upper-value unicode sent h = refl
to_upper-value unicode failed h = refl
to_upper-value unicode permanent_failed h = refl
to_upper-value unicode timed_out h = refl
to_upper-value unicode (unknown t) h = absurd (ground arith)
