-- ===== src/Domain/Column.antt =====
-- internal/domain/attachments.go: the attachments of a message in their JSONB column. The codec of
-- encoding/json is a parameter.
use go_signalium.Base.{◌≡◌, refl, ◌≢◌, Option, none, some, List, [], ◌∷◌}
use go_signalium.Base.Text.{Text, codes}
use go_signalium.Domain.{Attachment, Result, ok, err, bad_params}

-- A nil slice is `none`.
abbrev pub Attachments : Type 0
Attachments = Option (List Attachment)

-- What pgx hands to Scan.
pub data Source : Type 0 where
  null other : Source
  bytes text : Text → Source

module _ (marshal : List Attachment → Text) (unmarshal : Text → Option (List Attachment)) where
  unfoldable pub column_value : Attachments → Text
  column_value none = codes "[]"
  column_value (some xs) = marshal xs

  abbrev decoded : Option (List Attachment) → Result Attachments
  decoded none = err bad_params
  decoded (some xs) = ok (some xs)

  abbrev of_data : Text → Result Attachments
  of_data [] = ok none
  of_data (b ∷ t) = decoded (unmarshal (b ∷ t))

  unfoldable pub column_scan : Source → Result Attachments
  column_scan null = ok none
  column_scan other = err bad_params
  column_scan (bytes t) = of_data t
  column_scan (text t) = of_data t

  abbrev pub elements : Attachments → List Attachment
  elements none = []
  elements (some xs) = xs

  -- What is written to the column is read back with the same elements, where the codec reads what it
  -- writes, and "[]" xs no elements, and never writes nothing.
  pub column_scan-column_value :
      ((xs : List Attachment) → unmarshal (marshal xs) ≡ some xs)
      → unmarshal (codes "[]") ≡ some []
      → ((xs : List Attachment) → marshal xs ≢ [])
      → (xs : Attachments) → column_scan (bytes (column_value xs)) ≡ ok (some (elements xs))
  unfolding column_scan column_value
  column_scan-column_value h k ne none = rw k refl
  column_scan-column_value h k ne (some xs) = filled (marshal xs) (h xs) (ne xs)
    where
      filled : (t : Text) → unmarshal t ≡ some xs → t ≢ [] → of_data t ≡ ok (some xs)
      filled [] e n = absurd (n refl)
      filled (b ∷ t) e n = rw e refl
