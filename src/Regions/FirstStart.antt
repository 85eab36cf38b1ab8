-- ===== src/Regions/FirstStart.antt =====
-- The first line with a path, among those that rebuildPtrRegions of trace/src/FuncCallTrace.cpp reads:
-- what the map firstBase is to give.
use mathlib.Core.Option.{some-injective}
use android_prybar.Base.{
  ℕ, zero, suc, ◌<◌, ◌≡◌, refl, ap, ◌∙◌, ◌≢◌, inl, inr, true, false, Option, none, some, List, [],
  ◌∷◌, ◌++◌, arith, if◌then◌else◌, ==_iff, Bool-cases, get_elem?, from_option,
}
use android_prybar.Regions.{MapsLine, skip_spaces, text_eq}

-- The lines with six fields.
abbrev pub parsed : List (Option MapsLine) → List MapsLine
parsed [] = []
parsed (none ∷ ls) = parsed ls
parsed (some l ∷ ls) = l ∷ parsed ls

abbrev pub path_of : MapsLine → List ℕ
path_of l = skip_spaces l.path

pub text_eq-≡ : (xs ys : List ℕ) → text_eq xs ys ≡ true → xs ≡ ys
unfolding text_eq
text_eq-≡ [] [] e = refl
text_eq-≡ [] (y ∷ ys) e = absurd (cc e)
text_eq-≡ (x ∷ xs) [] e = absurd (cc e)
text_eq-≡ (x ∷ xs) (y ∷ ys) e =
    let same : x ≡ y = ground arith in let rest = text_eq-≡ xs ys (ground arith) in cc (same, rest)

pub text_eq_refl : (xs : List ℕ) → text_eq xs xs ≡ true
unfolding text_eq
text_eq_refl [] = refl
text_eq_refl (x ∷ xs) = rw ((==_iff x x).1 refl) (text_eq_refl xs)

-- The start of the first of the lines with a path.
unfoldable pub first_start : List ℕ → List MapsLine → Option ℕ
first_start p [] = none
first_start p (l ∷ ls) = if text_eq (path_of l) p then some l.from_addr else first_start p ls

pub first_start-++ :
    (p : List ℕ) (xs ys : List MapsLine)
    → first_start p (xs ++ ys) ≡ from_option (first_start p ys) some (first_start p xs)
unfolding first_start
first_start-++ p [] ys = refl
first_start-++ p (x ∷ xs) ys = elim (Bool-cases (text_eq (path_of x) p)) [
  | inl e ↦ rw e refl
  | inr e ↦ rw e (first_start-++ p xs ys)
]

-- A line with the path, before which no line has it, starts there.
abbrev pub IsFirst : List ℕ → List MapsLine → ℕ → Type 0
IsFirst p ls base =
    (j : ℕ) × (k : MapsLine) × (get_elem? ls j ≡ some k)
    × (path_of k ≡ p)
    × (k.from_addr ≡ base)
    × ((m : ℕ) (q : MapsLine) → m < j → get_elem? ls m ≡ some q → path_of q ≢ p)

later :
    (l : MapsLine) (ls : List MapsLine) (p : List ℕ) (j : ℕ)
    → text_eq (path_of l) p ≡ false
    → ((m : ℕ) (q : MapsLine) → m < j → get_elem? ls m ≡ some q → path_of q ≢ p)
    → (m : ℕ) (q : MapsLine) → m < suc j
    → get_elem? (l ∷ ls) m ≡ some q
    → path_of q ≢ p
later l ls p j other earlier zero q low at =
    λ same. let e = some-injective _ _ at in cc (other, ap path_of e, same, text_eq_refl p)
later l ls p j other earlier (suc m) q low at = earlier m q (omega (arith, low)) at

pub first_start-IsFirst :
    (p : List ℕ) (ls : List MapsLine) (base : ℕ) → first_start p ls ≡ some base → IsFirst p ls base
unfolding first_start
first_start-IsFirst p [] base e = absurd (cc e)
first_start-IsFirst p (l ∷ ls) base e = elim (Bool-cases (text_eq (path_of l) p)) [
  | inl same ↦ (
    0,
    l,
    refl,
    text_eq-≡ _ _ same,
    some-injective _ _ (rw (same, first_start) at e),
    λ m q low. absurd (omega (arith, low)),
  )
  | inr other ↦
      let (j, k, at, path, start, earlier) =
        first_start-IsFirst p ls base (rw (other, first_start) at e) in
      (suc j, k, at, path, start, later l ls p j other earlier)
]

from_option-some : (o : Option ℕ) → from_option none some o ≡ o
from_option-some none = refl
from_option-some (some b) = refl

-- One more line of another path, or of the path.
pub first_start-other :
    (p : List ℕ) (before : List MapsLine) (l : MapsLine)
    → text_eq (path_of l) p ≡ false
    → first_start p (before ++ l ∷ []) ≡ first_start p before
unfolding first_start
first_start-other p before l other =
    let s = rw (other, first_start) at (first_start-++ p before (l ∷ [])) in
    s ∙ from_option-some (first_start p before)

pub first_start-same :
    (p : List ℕ) (before rest : List MapsLine) (l : MapsLine)
    → text_eq (path_of l) p ≡ true
    → first_start p (before ++ l ∷ rest)
      ≡ from_option (some l.from_addr) some (first_start p before)
unfolding first_start
first_start-same p before rest l same =
    rw (same, first_start) at (first_start-++ p before (l ∷ rest))

pub Occurs-first_start :
    (p : List ℕ) (ls : List MapsLine) (i : ℕ) (l : MapsLine)
    → get_elem? ls i ≡ some l
    → path_of l ≡ p
    → (base : ℕ) × (first_start p ls ≡ some base)
unfolding first_start
Occurs-first_start p [] i l at e = absurd (cc at)
Occurs-first_start p (x ∷ xs) zero l at e =
    let same : text_eq (path_of x) p ≡ true =
      cc (ap path_of (some-injective _ _ at), e, text_eq_refl (path_of x)) in
    rw same (x.from_addr, refl)
Occurs-first_start p (x ∷ xs) (suc i) l at e = elim (Bool-cases (text_eq (path_of x) p)) [
  | inl same ↦ rw same (x.from_addr, refl)
  | inr other ↦ rw other (Occurs-first_start p xs i l at e)
]
