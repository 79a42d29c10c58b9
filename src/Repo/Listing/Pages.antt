-- ===== src/Repo/Listing/Pages.antt =====
-- List and Count together: the order of the list, its pages, and their number.
use go_signalium.Base.{
  ℕ, zero, suc, ◌+◌, ◌≡◌, ◌↔◌, refl, sym, ◌∙◌, Bool, true, false, List, [], ◌∷◌, ◌++◌, Memᴰ, length,
  select, count, All, Bool-cases, inl, inr, ap, arith, Mem-select, select-Mem, if◌then◌else◌,
}
use go_signalium.Base.Text.{Text}
use go_signalium.Base.Int.{pos}
use go_signalium.Domain.{ok, err, constraint}
use go_signalium.Repo.{Row, Table}
use go_signalium.Repo.Listing.{
  ListFilters, matches, is_before, place, order_by, take, drop, list_rows, count_rows, is_refused,
}

length-place : (r : Row) (t : List Row) → length (place r t) ≡ suc (length t)
unfolding place
length-place r [] = refl
length-place r (s ∷ t) = elim (Bool-cases (is_before r s)) [
  | inl e ↦ rw e refl
  | inr e ↦ rw e (ap suc (length-place r t))
]

length-order_by : (t : List Row) → length (order_by t) ≡ length t
unfolding order_by
length-order_by [] = refl
length-order_by (r ∷ t) = omega (arith, length-place r (order_by t), length-order_by t)

length-select : (p : Row → Bool) (t : List Row) → length (select p t) ≡ count p t
unfolding select count
length-select p [] = refl
length-select p (r ∷ t) = elim (Bool-cases (p r)) [
  | inl e ↦ rw e (ap suc (length-select p t))
  | inr e ↦ rw e (length-select p t)
]

-- Each row does not come after any later one.
abbrev pub IsOrdered : List Row → Type 0
IsOrdered [] = Unit
IsOrdered (r ∷ t) = All (λ s. is_before r s ≡ true) t × IsOrdered t

before_trans : (a b c : Row) → is_before a b ≡ true → is_before b c ≡ true → is_before a c ≡ true
before_trans a b c h k = ground arith

before_total : (a b : Row) → is_before a b ≡ false → is_before b a ≡ true
before_total a b h = ground arith

All-before :
    (a b : Row) (t : List Row)
    → is_before a b ≡ true
    → All (λ s. is_before b s ≡ true) t
    → All (λ s. is_before a s ≡ true) t
All-before a b [] h k = tt
All-before a b (c ∷ t) h k = (before_trans a b c h k.0, All-before a b t h k.1)

All-place :
    (p r : Row) (t : List Row)
    → is_before p r ≡ true
    → All (λ s. is_before p s ≡ true) t
    → All (λ s. is_before p s ≡ true) (place r t)
unfolding place
All-place p r [] h k = (h, tt)
All-place p r (s ∷ t) h k = elim (Bool-cases (is_before r s)) [
  | inl e ↦ rw e (h, k)
  | inr e ↦ rw e (k.0, All-place p r t h k.1)
]

place-IsOrdered : (r : Row) (t : List Row) → IsOrdered t → IsOrdered (place r t)
unfolding place
place-IsOrdered r [] o = (tt, tt)
place-IsOrdered r (s ∷ t) o = elim (Bool-cases (is_before r s)) [
  | inl e ↦ rw e ((e, All-before r s t e o.0), o)
  | inr e ↦ rw e (All-place s r t (before_total r s e) o.0, place-IsOrdered r t o.1)
]

order_by-IsOrdered : (t : List Row) → IsOrdered (order_by t)
unfolding order_by
order_by-IsOrdered [] = tt
order_by-IsOrdered (r ∷ t) = place-IsOrdered r (order_by t) (order_by-IsOrdered t)

place-Mem : (x r : Row) (t : List Row) → Memᴰ x (place r t) → Memᴰ x (r ∷ t)
unfolding place
place-Mem x r [] m = m
place-Mem x r (s ∷ t) m = elim (Bool-cases (is_before r s)) [
  | inl e ↦ rw (e, place) at m
  | inr e ↦ later (rw (e, place) at m) (place-Mem x r t)
]
  where
    later : Memᴰ x (s ∷ place r t) → (Memᴰ x (place r t) → Memᴰ x (r ∷ t)) → Memᴰ x (r ∷ s ∷ t)
    later (Memᴰ.head e) ih = Memᴰ.tail (Memᴰ.head e)
    later (Memᴰ.tail i) ih = elim (ih i) [
      | Memᴰ.head e ↦ Memᴰ.head e
      | Memᴰ.tail j ↦ Memᴰ.tail (Memᴰ.tail j)
    ]

Mem-place : (x r : Row) (t : List Row) → Memᴰ x (r ∷ t) → Memᴰ x (place r t)
unfolding place
Mem-place x r [] m = m
Mem-place x r (s ∷ t) m = elim (Bool-cases (is_before r s)) [
  | inl e ↦ rw (e, place) m
  | inr e ↦ rw (e, place) (later m (Mem-place x r t))
]
  where
    later : Memᴰ x (r ∷ s ∷ t) → (Memᴰ x (r ∷ t) → Memᴰ x (place r t)) → Memᴰ x (s ∷ place r t)
    later (Memᴰ.head e) ih = Memᴰ.tail (ih (Memᴰ.head e))
    later (Memᴰ.tail (Memᴰ.head e)) ih = Memᴰ.head e
    later (Memᴰ.tail (Memᴰ.tail j)) ih = Memᴰ.tail (ih (Memᴰ.tail j))

order_by-Mem : (x : Row) (t : List Row) → Memᴰ x (order_by t) ↔ Memᴰ x t
unfolding order_by
order_by-Mem x [] = (λ m. m, λ m. m)
order_by-Mem x (r ∷ t) =
    let (back, forth) = order_by-Mem x t in
    (
      λ m. inner r back (place-Mem x r (order_by t) m),
      λ m. Mem-place x r (order_by t) (inner r forth m),
    )
  where
    inner : {s s' : List Row} (r : Row) → (Memᴰ x s → Memᴰ x s') → Memᴰ x (r ∷ s) → Memᴰ x (r ∷ s')
    inner r f (Memᴰ.head e) = Memᴰ.head e
    inner r f (Memᴰ.tail i) = Memᴰ.tail (f i)

zero_add : (n : ℕ) → 0 + n ≡ n
zero_add n = omega arith

suc_add : (k n : ℕ) → suc k + n ≡ suc (k + n)
suc_add k n = omega arith

drop-nil : (n : ℕ) → drop {A = Row} n [] ≡ []
unfolding drop
drop-nil zero = refl
drop-nil (suc n) = refl

drop-drop : (k n : ℕ) (xs : List Row) → drop (k + n) xs ≡ drop n (drop k xs)
unfolding drop
drop-drop zero n xs = rw (zero_add n) refl
drop-drop (suc k) n [] = rw (suc_add k n) (sym (drop-nil n))
drop-drop (suc k) n (x ∷ xs) = rw (suc_add k n) (drop-drop k n xs)

take-drop : (n m : ℕ) (ys : List Row) → take n ys ++ take m (drop n ys) ≡ take (n + m) ys
unfolding take drop
take-drop zero m ys = rw (zero_add m) refl
take-drop (suc n) zero [] = rw (suc_add n 0) refl
take-drop (suc n) (suc m) [] = rw (suc_add n (suc m)) refl
take-drop (suc n) m (y ∷ ys) = rw (suc_add n m) (ap (◌∷◌ y) (take-drop n m ys))

take-length : (xs : List Row) → take (length xs) xs ≡ xs
unfolding take
take-length [] = refl
take-length (x ∷ xs) = ap (◌∷◌ x) (take-length xs)

abbrev pub page : ListFilters → ℕ → ℕ → ListFilters
page f n k = record f { limit = pos n; offset = pos k }

-- A page and the page after it, as long as they please, make up the page of both lengths.
pub list_pages :
    (ilike : Text → Text → Bool) (f : ListFilters) (t : Table) (n m k : ℕ) (xs ys : List Row)
    → list_rows ilike (page f n k) t ≡ ok xs
    → list_rows ilike (page f m (k + n)) t ≡ ok ys
    → list_rows ilike (page f (n + m) k) t ≡ ok (xs ++ ys)
unfolding list_rows
list_pages ilike f t n m k xs ys h g =
    go (is_refused f.status) (order_by (select (matches ilike f) t)) h g
  where
    go :
        (b : Bool) (rows : List Row)
        → (if b then err constraint else ok (take n (drop k rows))) ≡ ok xs
        → (if b then err constraint else ok (take m (drop (k + n) rows))) ≡ ok ys
        → (if b then err constraint else ok (take (n + m) (drop k rows))) ≡ ok (xs ++ ys)
    go true rows h g = absurd (ground arith)
    go false rows h g =
        let hx : take n (drop k rows) ≡ xs = ground arith in
        let hy : take m (drop (k + n) rows) ≡ ys = ground arith in
        rw (← hx, ← hy, drop-drop k n rows) (ap ok (sym (take-drop n m (drop k rows))))

-- The page that starts at the first row and is as long as Count says holds exactly the rows that
-- match, once each in number, and has them in order: the newest first, equal times by id.
pub list-count :
    (ilike : Text → Text → Bool) (f : ListFilters) (t : Table) (c : ℕ)
    → count_rows ilike f t ≡ ok c
    → (xs : List Row) × (list_rows ilike (page f c 0) t ≡ ok xs)
      × (length xs ≡ c)
      × IsOrdered xs
      × ((r : Row) → Memᴰ r xs ↔ (Memᴰ r t × (matches ilike f r ≡ true)))
unfolding list_rows count_rows matches drop
list-count ilike f t c h = go (is_refused f.status) h
  where
    rows : List Row
    rows = order_by (select (matches ilike f) t)

    members : (r : Row) → Memᴰ r rows ↔ (Memᴰ r t × (matches ilike f r ≡ true))
    members r = (
      λ m. Mem-select (matches ilike f) r t ((order_by-Mem r (select (matches ilike f) t)).0 m),
      λ (i, e).
          (order_by-Mem r (select (matches ilike f) t)).1 (select-Mem (matches ilike f) r t i e),
    )

    go :
        (b : Bool)
        → (if b then err constraint else ok (count (matches ilike f) t)) ≡ ok c
        → (xs : List Row) × ((if b then err constraint else ok (take c rows)) ≡ ok xs)
          × (length xs ≡ c)
          × IsOrdered xs
          × ((r : Row) → Memᴰ r xs ↔ (Memᴰ r t × (matches ilike f r ≡ true)))
    go true h = absurd (ground arith)
    go false h =
        let hc : count (matches ilike f) t ≡ c = ground arith in
        let l : length rows ≡ c =
          length-order_by (select (matches ilike f) t) ∙ length-select (matches ilike f) t ∙ hc in
        (
          rows,
          rw (← l) (ap ok (take-length rows)),
          l,
          order_by-IsOrdered (select (matches ilike f) t),
          members,
        )
