-- ===== src/Base/Lists.antt =====
-- Lists measured by native numbers and filtered by Boolean tests, with membership by recursion.
use Prim.Native.Nat.{ℕ, suc, ◌+◌}
use mathlib.Core.Path.{◌≡◌, refl}
use mathlib.Core.Logic.{inl, inr}
use mathlib.Core.Bool.{Bool, true, false}
use mathlib.Core.List.{List, [], ◌∷◌, ◌++◌, map, Memᴰ}
use mathlib.Core.Option.{Option, none, some}
use native.Mathlib.Omega.{arith}
use package.go_signalium.Base.Tests.{if◌then◌else◌, Bool-cases}

module _ {ℓ} {A : Type ℓ} where
  abbrev pub length : List A → ℕ
  length [] = 0
  length (x ∷ xs) = suc (length xs)

  pub length-append : (xs ys : List A) → length (xs ++ ys) ≡ length xs + length ys
  length-append [] ys = omega arith
  length-append (x ∷ xs) ys = omega (arith, length-append xs ys)

  abbrev pub All {κ} : (A → Type κ) → List A → Type κ
  All P [] = Unit
  All P (x ∷ xs) = P x × All P xs

  pub All-Mem {κ} : (P : A → Type κ) {x : A} {xs : List A} → All P xs → Memᴰ x xs → P x
  All-Mem P h (Memᴰ.head e) = rw e h.0
  All-Mem P h (Memᴰ.tail m) = All-Mem P h.1 m

  pub All-of_Mem {κ} : (P : A → Type κ) (xs : List A) → ((x : A) → Memᴰ x xs → P x) → All P xs
  All-of_Mem P [] h = tt
  All-of_Mem P (x ∷ xs) h = (h x (Memᴰ.head refl), All-of_Mem P xs (λ y m. h y (Memᴰ.tail m)))

  pub All-map {κ} :
      (P : A → Type κ) (f : A → A) (xs : List A)
      → ((x : A) → P x → P (f x))
      → All P xs
      → All P (map f xs)
  All-map P f [] h a = tt
  All-map P f (x ∷ xs) h a = (h x a.0, All-map P f xs h a.1)

  -- The rows that pass a test, the first of them, and how many there are.
  unfoldable pub select : (A → Bool) → List A → List A
  select p [] = []
  select p (x ∷ xs) = let rest = select p xs in if p x then x ∷ rest else rest

  unfoldable pub first : (A → Bool) → List A → Option A
  first p [] = none
  first p (x ∷ xs) = let rest = first p xs in if p x then some x else rest

  unfoldable pub count : (A → Bool) → List A → ℕ
  count p [] = 0
  count p (x ∷ xs) = let rest = count p xs in if p x then suc rest else rest

  pub Mem-select :
      (p : A → Bool) (x : A) (xs : List A) → Memᴰ x (select p xs) → Memᴰ x xs × (p x ≡ true)
  unfolding select
  Mem-select p x [] m = elim m [ ]
  Mem-select p x (y ∷ ys) m = elim (Bool-cases (p y)) [
    | inl e ↦ hit e (Mem-select p x ys) (rw (e, select) at m)
    | inr e ↦ let (i, t) = Mem-select p x ys (rw (e, select) at m) in (Memᴰ.tail i, t)
  ]
    where
      hit :
          p y ≡ true
          → (Memᴰ x (select p ys) → Memᴰ x ys × (p x ≡ true))
          → Memᴰ x (y ∷ select p ys)
          → Memᴰ x (y ∷ ys) × (p x ≡ true)
      hit e ih (Memᴰ.head q) = (Memᴰ.head q, rw q e)
      hit e ih (Memᴰ.tail i) = let (j, t) = ih i in (Memᴰ.tail j, t)

  pub select-Mem :
      (p : A → Bool) (x : A) (xs : List A) → Memᴰ x xs → p x ≡ true → Memᴰ x (select p xs)
  unfolding select
  select-Mem p x [] m h = elim m [ ]
  select-Mem p x (y ∷ ys) (Memᴰ.head e) h =
      let hy : p y ≡ true = rw e at h in rw (hy, select) (Memᴰ.head e)
  select-Mem p x (y ∷ ys) (Memᴰ.tail m) h = elim (Bool-cases (p y)) [
    | inl e ↦ rw (e, select) (Memᴰ.tail (select-Mem p x ys m h))
    | inr e ↦ rw (e, select) (select-Mem p x ys m h)
  ]

  pub first-Mem :
      (p : A → Bool) (x : A) (xs : List A) → first p xs ≡ some x → Memᴰ x xs × (p x ≡ true)
  unfolding first
  first-Mem p x [] h = cc
  first-Mem p x (y ∷ ys) h = elim (Bool-cases (p y)) [
    | inl e ↦ (Memᴰ.head (ground arith), ground arith)
    | inr e ↦ let (i, t) = first-Mem p x ys (ground arith) in (Memᴰ.tail i, t)
  ]

  pub first-eq-none :
      (p : A → Bool) (x : A) (xs : List A) → first p xs ≡ none → Memᴰ x xs → p x ≡ false
  unfolding first
  first-eq-none p x [] h m = elim m [ ]
  first-eq-none p x (y ∷ ys) h (Memᴰ.head e) = rw e (ground arith)
  first-eq-none p x (y ∷ ys) h (Memᴰ.tail m) = first-eq-none p x ys (ground arith) m
