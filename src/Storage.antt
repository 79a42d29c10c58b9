-- ===== src/Storage.antt =====
-- internal/storage/object_store.go: the bucket of attachments. MinIO is a set of objects by bucket and
-- key; a call may fail before it takes effect (`down`) or after it (`lost`).
pub mod Download
pub mod Bucket
use go_signalium.Base.{
  Bool, not, ◌&&◌, ◌⊎◌, inl, inr, List, ◌∷◌, map, Memᴰ, select, Mem-select, ◌≡◌, true, arith,
}
use go_signalium.Base.Text.{Text, text_eq, text_eq_refl}
use go_signalium.Domain.{Attachment, Result, ok, err, unavailable}
use go_signalium.Repo.Messages.{Link, up, down, lost}

pub record ObjectRef : Type 0 where
  pub bucket : Text
  pub key : Text

abbrev pub Objects : Type 0
Objects = List ObjectRef

abbrev pub object : Text → Text → ObjectRef
object b k = record { bucket = b; key = k }

-- The object that a row's attachment names.
abbrev pub to_ref : Attachment → ObjectRef
to_ref a = object a.bucket a.filename

abbrev pub is_same_ref : ObjectRef → ObjectRef → Bool
is_same_ref a b = text_eq a.bucket b.bucket && text_eq a.key b.key

abbrev without : ObjectRef → Objects → Objects
without r s = select (λ o. not (is_same_ref r o)) s

-- Put overwrites. It returns the bucket of the configuration and the key that it was given.
unfoldable pub put : Link → Text → Text → Objects → Result ObjectRef × Objects
put up b k s = (ok (object b k), object b k ∷ without (object b k) s)
put down b k s = (err unavailable, s)
put lost b k s = (err unavailable, object b k ∷ without (object b k) s)

unfoldable pub remove : Link → ObjectRef → Objects → Result (Unit {0}) × Objects
remove up r s = (ok tt, without r s)
remove down r s = (err unavailable, s)
remove lost r s = (err unavailable, without r s)

-- Every object of the store was there at first or is named by one of the attachments.
abbrev pub Within : Objects → List Attachment → Objects → Type 0
Within s0 refs s = (o : ObjectRef) → Memᴰ o s → Memᴰ o s0 ⊎ Memᴰ o (map to_ref refs)

same_ref_refl : (r : ObjectRef) → is_same_ref r r ≡ true
same_ref_refl r = ground (arith, text_eq_refl r.bucket, text_eq_refl r.key)

-- An object that is removed is no longer needed among the attachments.
pub remove-Within :
    (s0 : Objects) (a : Attachment) (refs : List Attachment) (s : Objects)
    → Within s0 (a ∷ refs) s
    → Within s0 refs (remove up (to_ref a) s).1
unfolding remove
remove-Within s0 a refs s w o m =
    let (i, t) = Mem-select (λ o. not (is_same_ref (to_ref a) o)) o s m in kept t (w o i)
  where
    removed : (b : Bool) → b ≡ true → not b ≡ true → ⊥
    removed b e t = ground arith

    kept :
        not (is_same_ref (to_ref a) o) ≡ true
        → Memᴰ o s0 ⊎ Memᴰ o (map to_ref (a ∷ refs))
        → Memᴰ o s0 ⊎ Memᴰ o (map to_ref refs)
    kept t (inl i) = inl i
    kept t (inr (Memᴰ.head e)) =
        absurd (removed (is_same_ref (to_ref a) (to_ref a)) (same_ref_refl (to_ref a)) (rw e at t))
    kept t (inr (Memᴰ.tail i)) = inr i
