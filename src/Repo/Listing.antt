-- ===== src/Repo/Listing.antt =====
-- The List and Count queries with their filters, ordered by created_at DESC, signal_message_id ASC.
-- ILIKE '%' || q || '%' is Postgres's and a parameter. A negative LIMIT or OFFSET and a status that the
-- enumeration lacks are refused.
pub mod Pages
use go_signalium.Base.{
  ℕ, zero, suc, ◌+◌, ◌-◌, ◌≤◌, ◌≡◌, refl, Bool, true, false, not, ◌&&◌, ◌||◌, Option, none, some,
  List, [], ◌∷◌, ◌++◌, map, Memᴰ, ltb, leb, ◌==◌, if◌then◌else◌, length, select, count, All,
  Bool-cases, inl, inr, ap, arith, Mem-select, select-Mem, ◌⊎◌,
}
use go_signalium.Base.Text.{Text}
use go_signalium.Base.Int.{ℤ, pos, negsuc, is_negative}
use go_signalium.Domain.{
  Message, Status, pending, sending, sent, failed, permanent_failed, timed_out, unknown, Result, ok,
  err, constraint,
}
use go_signalium.Repo.{Row, Table, is_live}
use go_signalium.Repo.Messages.{Link, read, ts_tz, row_to_domain}

pub record ListFilters : Type 0 where
  pub q : Option Text
  pub status : Option Status
  pub attempts : Option ℤ
  pub created_at_from : Option ℕ
  pub created_at_to : Option ℕ
  pub limit : ℤ
  pub offset : ℤ

abbrev optional {ℓ} : {A : Type ℓ} → (A → Bool) → Option A → Bool
optional p none = true
optional p (some a) = p a

abbrev pub rank : Status → ℕ
rank pending = 0
rank sending = 1
rank sent = 2
rank failed = 3
rank permanent_failed = 4
rank timed_out = 5
rank (unknown t) = 6

abbrev is_equal_ℤ : ℕ → ℤ → Bool
is_equal_ℤ n (pos m) = n == m
is_equal_ℤ n (negsuc m) = false

-- The WHERE clause that the two queries share.
unfoldable pub matches : (Text → Text → Bool) → ListFilters → Row → Bool
unfolding ts_tz
matches ilike f r =
    is_live r
    && (optional (ilike r.content) f.q
        && (optional (λ s. rank r.status == rank s) f.status
            && (optional (is_equal_ℤ r.attempts) f.attempts
                && (optional (λ t. leb t r.created_at) (ts_tz f.created_at_from)
                    && optional (λ t. ltb r.created_at t) (ts_tz f.created_at_to)))))

-- Whether a row does not come after another in the order of the list.
abbrev pub is_before : Row → Row → Bool
is_before r s = ltb s.created_at r.created_at || (s.created_at == r.created_at && leb r.id s.id)

unfoldable pub place : Row → List Row → List Row
place r [] = r ∷ []
place r (s ∷ t) = let rest = place r t in if is_before r s then r ∷ s ∷ t else s ∷ rest

unfoldable pub order_by : List Row → List Row
unfolding place
order_by [] = []
order_by (r ∷ t) = place r (order_by t)

unfoldable pub take {ℓ} : {A : Type ℓ} → ℕ → List A → List A
take zero xs = []
take (suc n) [] = []
take (suc n) (x ∷ xs) = x ∷ take n xs

unfoldable pub drop {ℓ} : {A : Type ℓ} → ℕ → List A → List A
drop zero xs = xs
drop (suc n) [] = []
drop (suc n) (x ∷ xs) = drop n xs

abbrev pub is_refused : Option Status → Bool
is_refused none = false
is_refused (some s) = rank s == 6

abbrev pub paged : ℤ → ℤ → List Row → Result (List Row)
paged (pos n) (pos k) rows = ok (take n (drop k rows))
paged (pos n) (negsuc k) rows = err constraint
paged (negsuc n) k rows = err constraint

unfoldable pub list_rows : (Text → Text → Bool) → ListFilters → Table → Result (List Row)
unfolding matches order_by take drop
list_rows ilike f t =
    if is_refused f.status
    then err constraint
    else paged f.limit f.offset (order_by (select (matches ilike f) t))

unfoldable pub count_rows : (Text → Text → Bool) → ListFilters → Table → Result ℕ
unfolding matches
count_rows ilike f t =
    if is_refused f.status then err constraint else ok (count (matches ilike f) t)

abbrev to_domain : Result (List Row) → Result (List Message)
to_domain (ok rows) = ok (map row_to_domain rows)
to_domain (err x) = err x

-- List and Count of the wrapper
unfoldable pub list : (Text → Text → Bool) → Link → ListFilters → Table → Result (List Message)
unfolding list_rows
list ilike link f t = read link (to_domain (list_rows ilike f t))

unfoldable pub count_of : (Text → Text → Bool) → Link → ListFilters → Table → Result ℕ
unfolding count_rows
count_of ilike link f t = read link (count_rows ilike f t)
