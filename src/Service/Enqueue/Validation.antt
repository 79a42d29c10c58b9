-- ===== src/Service/Enqueue/Validation.antt =====
-- Enqueue and the table: what a request must be, the row that it makes, and its idempotency key.
use mathlib.Core.Option.{some-injective}
use go_signalium.Base.{
  ◌≡◌, ◌↔◌, ◌⊎◌, ◌≤◌, true, false, arith, length, Option, none, some, ap, inl, inr, refl,
  Bool-cases,
}
use go_signalium.Base.Text.{Text, is_set, text_eq, text_eq_sound, text_eq_iff}
use go_signalium.Domain.{ok}
use go_signalium.Service.Enqueue.{CreateMessage, is_blank, is_other_sender, validate}

-- The rules of validate, without the order of its checks. The length of the external id is that of its
-- bytes.
pub record IsAcceptable (sender : Text) (m : CreateMessage) : Type 0 where
  pub external : (is_blank 0 m.external_id ≡ false) × (length m.external_id ≤ 255)
  pub content : is_blank 0 m.content ≡ false
  pub target :
      ((is_set m.recipient ≡ true) × (is_set m.group_id ≡ false))
      ⊎ ((is_set m.recipient ≡ false) × (is_set m.group_id ≡ true))
  pub same_sender : (is_set m.sender_phone_number ≡ false) ⊎ (m.sender_phone_number ≡ some sender)

-- validate accepts a request exactly if its external id is not blank and has at most 255 bytes, its
-- content is not blank, exactly one of its targets is set, and its sender is not set or is the
-- configured one.
pub validate_iff :
    (sender : Text) (m : CreateMessage) → (validate sender m ≡ ok tt) ↔ IsAcceptable sender m
unfolding validate is_other_sender
validate_iff sender m =
    (accepted, λ a. holds a.external.0 a.external.1 a.content a.target (passes _ a.same_sender))
  where
    own :
        (o : Option Text)
        → is_other_sender sender o ≡ false
        → (is_set o ≡ false) ⊎ (o ≡ some sender)
    own none h = inl (unfold is_set in refl)
    own (some s) h = elim (Bool-cases (text_eq s sender)) [
      | inl e ↦ inr (ap some (text_eq_sound s sender e))
      | inr e ↦ inl (ground arith)
    ]

    passes :
        (o : Option Text)
        → (is_set o ≡ false) ⊎ (o ≡ some sender)
        → is_other_sender sender o ≡ false
    passes none h = refl
    passes (some s) (inl h) = ground arith
    passes (some s) (inr h) =
        let e : s ≡ sender = some-injective s sender h in ground (arith, text_eq_iff s sender)

    accepted : validate sender m ≡ ok tt → IsAcceptable sender m
    accepted h = record {
      external = ground arith;
      content = ground arith;
      target = ground arith;
      same_sender = own m.sender_phone_number (ground arith);
    }

    holds :
        is_blank 0 m.external_id ≡ false
        → length m.external_id ≤ 255
        → is_blank 0 m.content ≡ false
        → ((is_set m.recipient ≡ true) × (is_set m.group_id ≡ false))
          ⊎ ((is_set m.recipient ≡ false) × (is_set m.group_id ≡ true))
        → is_other_sender sender m.sender_phone_number ≡ false
        → validate sender m ≡ ok tt
    holds a b c d x = ground arith
