-- ===== src/Base/Slices.antt =====
-- A list cut at native offsets: the bytes that pointer arithmetic reaches.
use Prim.Native.Nat.{ℕ, zero, suc, ◌+◌, ◌<◌, ◌≤◌}
use mathlib.Core.Path.{◌≡◌, refl, ap, subst}
use mathlib.Core.List.{List, [], ◌∷◌, ◌++◌}
use mathlib.Core.Option.{none, some, some-injective}
use native.Mathlib.Omega.{arith}
use android_prybar.Base.Lists.{length, get_elem?, get_or, take, drop, All}

module _ {ℓ} {A : Type ℓ} where
  pub get_elem?-append_left :
      (xs ys : List A) (i : ℕ) → i < length xs → get_elem? (xs ++ ys) i ≡ get_elem? xs i
  get_elem?-append_left [] ys i h = absurd (omega arith)
  get_elem?-append_left (x ∷ xs) ys zero h = refl
  get_elem?-append_left (x ∷ xs) ys (suc i) h = get_elem?-append_left xs ys i (omega arith)

  pub get_elem?-some : (xs : List A) (i : ℕ) → i < length xs → (a : A) × (get_elem? xs i ≡ some a)
  get_elem?-some [] i h = absurd (omega arith)
  get_elem?-some (x ∷ xs) zero h = (x, refl)
  get_elem?-some (x ∷ xs) (suc i) h = get_elem?-some xs i (omega arith)

  pub get_elem?-none : (xs : List A) (i : ℕ) → length xs ≤ i → get_elem? xs i ≡ none
  get_elem?-none [] i h = refl
  get_elem?-none (x ∷ xs) zero h = absurd (omega arith)
  get_elem?-none (x ∷ xs) (suc i) h = get_elem?-none xs i (omega arith)

  pub get_or-take :
      (xs : List A) (i n : ℕ) (d a : A)
      → i < n
      → get_elem? xs i ≡ some a
      → get_or (take n xs) i d ≡ a
  get_or-take xs i zero d a h e = absurd (omega arith)
  get_or-take [] i (suc n) d a h e = cc
  get_or-take (x ∷ xs) zero (suc n) d a h e = ground arith
  get_or-take (x ∷ xs) (suc i) (suc n) d a h e = get_or-take xs i n d a (omega arith) e

  pub take_suc :
      (xs : List A) (n : ℕ) (a : A)
      → get_elem? xs n ≡ some a
      → take n xs ++ (a ∷ []) ≡ take (n + 1) xs
  take_suc [] n a e = cc
  take_suc (x ∷ xs) zero a e = ground arith
  take_suc (x ∷ xs) (suc n) a e =
      let step : suc n + 1 ≡ suc (n + 1) = omega arith in rw step (ap (◌∷◌ x) (take_suc xs n a e))

  pub take_add : (xs : List A) (m n : ℕ) → take m xs ++ take n (drop m xs) ≡ take (m + n) xs
  take_add xs zero n = let step : 0 + n ≡ n = omega arith in rw step
  take_add [] (suc m) zero = let step : suc m + 0 ≡ suc m = omega arith in rw step
  take_add [] (suc m) (suc n) = let step : suc m + suc n ≡ suc (m + suc n) = omega arith in rw step
  take_add (x ∷ xs) (suc m) n =
      let step : suc m + n ≡ suc (m + n) = omega arith in rw step (ap (◌∷◌ x) (take_add xs m n))

  pub take-append_left : (xs ys : List A) → take (length xs) (xs ++ ys) ≡ xs
  take-append_left [] ys = refl
  take-append_left (x ∷ xs) ys = ap (◌∷◌ x) (take-append_left xs ys)

  pub drop-append_left : (xs ys : List A) → drop (length xs) (xs ++ ys) ≡ ys
  drop-append_left [] ys = refl
  drop-append_left (x ∷ xs) ys = drop-append_left xs ys

  pub All-take {κ} : (P : A → Type κ) (n : ℕ) (xs : List A) → All P xs → All P (take n xs)
  All-take P zero xs p = tt
  All-take P (suc n) [] p = tt
  All-take P (suc n) (x ∷ xs) p = (p.0, All-take P n xs p.1)

  pub All-drop {κ} : (P : A → Type κ) (n : ℕ) (xs : List A) → All P xs → All P (drop n xs)
  All-drop P zero xs p = p
  All-drop P (suc n) [] p = tt
  All-drop P (suc n) (x ∷ xs) p = All-drop P n xs p.1

  pub All-get_elem? {κ} :
      (P : A → Type κ) (xs : List A) (i : ℕ) (a : A) → All P xs → get_elem? xs i ≡ some a → P a
  All-get_elem? P [] i a p e = absurd (cc e)
  All-get_elem? P (x ∷ xs) zero a p e = subst P (some-injective x a e) p.0
  All-get_elem? P (x ∷ xs) (suc i) a p e = All-get_elem? P xs i a p.1 e
