-- ===== src/Repo/Insert.antt =====
-- The Insert query with the constraints of migrations/20260519000000_init.sql: the primary key, the
-- two UNIQUE columns (NULL is distinct from NULL) and the CHECK exactly_one_target.
use go_signalium.Base.{
  if_elim, arith, ℕ, Bool, true, false, not, ◌||◌, Option, none, some, List, [], ◌∷◌, ◌==◌,
  if◌then◌else◌, map, ◌≡◌, All,
}
use go_signalium.Base.Text.{Text, text_eq}
use go_signalium.Base.Int.{ℤ}
use go_signalium.Domain.{Attachment, pending, Result, ok, err, constraint}
use go_signalium.Repo.{Row, Table, exists, has_key}

pub record InsertParams : Type 0 where
  pub external_id : Text
  pub idempotency_key : Option Text
  pub recipient : Option Text
  pub group_id : Option Text
  pub sender_phone_number : Text
  pub content : Text
  pub attachments : List Attachment
  pub max_attempts : ℤ
  pub timeout_at : Option ℕ
  pub correlation_id : Text

-- The columns that the constraints read. No statement but Insert writes them.
pub record Identity : Type 0 where
  pub id : ℕ
  pub external_id : Text
  pub idempotency_key : Option Text
  pub recipient : Option Text
  pub group_id : Option Text

abbrev pub identity : Row → Identity
identity r = record {
  id = r.id;
  external_id = r.external_id;
  idempotency_key = r.idempotency_key;
  recipient = r.recipient;
  group_id = r.group_id;
}

abbrev pub same_key : Option Text → Option Text → Bool
same_key none k = false
same_key (some j) k = has_key j k

unfoldable pub clashes : Identity → Identity → Bool
clashes a b =
    b.id == a.id
    || (text_eq b.external_id a.external_id || same_key a.idempotency_key b.idempotency_key)

-- (recipient IS NOT NULL)::int + (group_id IS NOT NULL)::int = 1
abbrev pub is_one_target : Option Text → Option Text → Bool
is_one_target none none = false
is_one_target none (some g) = true
is_one_target (some r) none = true
is_one_target (some r) (some g) = false

-- The columns that the query does not name take their defaults; quote_result_id is one of them.
unfoldable pub new_row : ℕ → ℕ → InsertParams → Row
new_row now id p = record {
  message = record {
    id = id;
    external_id = p.external_id;
    idempotency_key = p.idempotency_key;
    recipient = p.recipient;
    group_id = p.group_id;
    sender_phone_number = p.sender_phone_number;
    content = p.content;
    attachments = p.attachments;
    attempts = 0;
    max_attempts = p.max_attempts;
    next_attempt_at = now;
    timeout_at = p.timeout_at;
    status = pending;
    last_error = none;
    result_id = none;
    quote_result_id = none;
    correlation_id = p.correlation_id;
    created_at = now;
    modified_at = now;
  };
  deleted_at = none;
}

-- `id` is what gen_random_uuid() draws.
unfoldable pub insert : ℕ → ℕ → InsertParams → Table → Result Row × Table
insert now id p t =
    if exists (λ r. clashes (identity (new_row now id p)) (identity r)) t
      || not (is_one_target p.recipient p.group_id)
    then (err constraint, t)
    else (ok (new_row now id p), new_row now id p ∷ t)

-- The constraints hold: no two rows clash, and each has one target.
abbrev pub AreDistinct : List Identity → Type 0
AreDistinct [] = Unit
AreDistinct (a ∷ rest) =
    All (λ b. clashes a b ≡ false) rest
    × (is_one_target a.recipient a.group_id ≡ true)
    × AreDistinct rest

abbrev pub IsWellFormed : Table → Type 0
IsWellFormed t = AreDistinct (map identity t)

-- Insert refuses and leaves the table alone, or adds the new row where nothing clashes with it.
pub insert_cases {ℓ} :
    (P : Table → Type ℓ) (now id : ℕ) (p : InsertParams) (t : Table)
    → P t
    → (exists (λ r. clashes (identity (new_row now id p)) (identity r)) t ≡ false
        → is_one_target p.recipient p.group_id ≡ true
        → P (new_row now id p ∷ t))
    → P (insert now id p t).1
unfolding insert
insert_cases P now id p t same done =
    if_elim (λ (x : Result Row × Table). P x.1) (clash || not one) (err constraint, t)
      (ok (new_row now id p), new_row now id p ∷ t) (λ _. same)
      (λ e. let (a, b) = refused clash one e in done a b)
  where
    clash : Bool
    clash = exists (λ r. clashes (identity (new_row now id p)) (identity r)) t

    one : Bool
    one = is_one_target p.recipient p.group_id

    refused : (a b : Bool) → (a || not b) ≡ false → (a ≡ false) × (b ≡ true)
    refused a b e = ground arith
