-- ===== src/Domain/StatusText.antt =====
-- internal/domain/status.go: the text of a status in parameterised SQL, and the way back.
use go_signalium.Base.{Bool, true, false, ◌≡◌, refl, if◌then◌else◌, arith}
use go_signalium.Base.Text.{Text, codes, text_eq, text_eq_iff}
use go_signalium.Domain.{
  Status, pending, sending, sent, failed, permanent_failed, timed_out, unknown,
}

unfoldable pub value : Status → Text
value pending = codes "PENDING"
value sending = codes "SENDING"
value sent = codes "SENT"
value failed = codes "FAILED"
value permanent_failed = codes "PERMANENT_FAILED"
value timed_out = codes "TIMED_OUT"
value (unknown t) = t

unfoldable pub scan : Text → Status
scan t =
    if text_eq t (codes "PENDING")
    then pending
    else if text_eq t (codes "SENDING")
    then sending
    else if text_eq t (codes "SENT")
    then sent
    else if text_eq t (codes "FAILED")
    then failed
    else if text_eq t (codes "PERMANENT_FAILED")
    then permanent_failed
    else if text_eq t (codes "TIMED_OUT")
    then timed_out
    else unknown t

-- One of the six values of the Postgres ENUM.
abbrev pub is_known : Status → Bool
is_known (unknown t) = false
is_known pending = true
is_known sending = true
is_known sent = true
is_known failed = true
is_known permanent_failed = true
is_known timed_out = true

-- Every text that is scanned into a status is written back unchanged.
pub value-scan : (t : Text) → value (scan t) ≡ t
unfolding value scan
value-scan t = ground (
  arith,
  text_eq_iff t (codes "PENDING"),
  text_eq_iff t (codes "SENDING"),
  text_eq_iff t (codes "SENT"),
  text_eq_iff t (codes "FAILED"),
  text_eq_iff t (codes "PERMANENT_FAILED"),
  text_eq_iff t (codes "TIMED_OUT"),
)

-- A value of the ENUM is written and scanned back to itself.
pub scan-value : (s : Status) → is_known s ≡ true → scan (value s) ≡ s
unfolding value scan text_eq
scan-value pending h = refl
scan-value sending h = refl
scan-value sent h = refl
scan-value failed h = refl
scan-value permanent_failed h = refl
scan-value timed_out h = refl
scan-value (unknown t) h = elim (ne h) [ ]
  where
    ne : false ≡ true → ⊥
    ne e = ground arith
