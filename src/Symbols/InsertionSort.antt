-- ===== src/Symbols/InsertionSort.antt =====
-- A sort that meets what trace/Utils/SymbolTable.cpp asks of std::sort.
use mathlib.Core.Option.{some-injective}
use android_prybar.Base.{
  ℕ, zero, suc, ◌≤◌, ◌≡◌, refl, ap, subst, ◌⊎◌, inl, inr, some, List, [], ◌∷◌, arith, leb,
  if◌then◌else◌, leb→le, leb_false→lt, Bool-cases, All, if-all,
}
use android_prybar.Symbols.{SymEntry, Occurs, IsSorted}
use android_prybar.Symbols.Cache.{Sorter}

unfoldable pub insert : SymEntry → List SymEntry → List SymEntry
insert e [] = e ∷ []
insert e (x ∷ xs) = if leb e.addr x.addr then e ∷ x ∷ xs else x ∷ insert e xs

unfoldable pub sort : List SymEntry → List SymEntry
sort [] = []
sort (x ∷ xs) = insert x (sort xs)

All-insert :
    (P : SymEntry → Type 0) (e : SymEntry) (xs : List SymEntry)
    → P e
    → All P xs
    → All P (insert e xs)
unfolding insert
All-insert P e [] p ps = (p, tt)
All-insert P e (x ∷ xs) p ps =
    if-all (All P) (leb e.addr x.addr) _ _ (p, ps) (ps.0, All-insert P e xs p ps.1)

All-weaken :
    (m n : ℕ) (xs : List SymEntry) → m ≤ n → All (λ f. n ≤ f.addr) xs → All (λ f. m ≤ f.addr) xs
All-weaken m n [] h all = tt
All-weaken m n (x ∷ xs) h all = (omega (arith, all.0), All-weaken m n xs h all.1)

insert-IsSorted : (e : SymEntry) (xs : List SymEntry) → IsSorted xs → IsSorted (insert e xs)
unfolding insert
insert-IsSorted e [] sorted = (tt, tt)
insert-IsSorted e (x ∷ xs) sorted = elim (Bool-cases (leb e.addr x.addr)) [
  | inl b ↦ let h = leb→le _ _ b in rw b ((h, All-weaken e.addr x.addr xs h sorted.0), sorted)
  | inr b ↦
      let h = leb_false→lt _ _ b in
      rw b (
        All-insert (λ f. x.addr ≤ f.addr) e xs (omega (arith, h)) sorted.0,
        insert-IsSorted e xs sorted.1,
      )
]

pub sort-IsSorted : (xs : List SymEntry) → IsSorted (sort xs)
unfolding sort
sort-IsSorted [] = tt
sort-IsSorted (x ∷ xs) = insert-IsSorted x (sort xs) (sort-IsSorted xs)

-- What occurs in a list with one more entry in front.
Occurs-next : (f x : SymEntry) (xs : List SymEntry) → Occurs f xs → Occurs f (x ∷ xs)
Occurs-next f x xs at = (suc at.0, at.1)

Occurs-cons : (f x : SymEntry) (xs : List SymEntry) → Occurs f (x ∷ xs) → (x ≡ f) ⊎ Occurs f xs
Occurs-cons f x xs (zero, at) = inl (some-injective x f at)
Occurs-cons f x xs (suc i, at) = inr (i, at)

insert-Occurs :
    (f e : SymEntry) (xs : List SymEntry) → Occurs f (insert e xs) → (e ≡ f) ⊎ Occurs f xs
unfolding insert
insert-Occurs f e [] at = Occurs-cons f e [] at
insert-Occurs f e (x ∷ xs) at = elim (Bool-cases (leb e.addr x.addr)) [
  | inl b ↦
      Occurs-cons f e (x ∷ xs)
        (subst (λ t. Occurs f (if t then e ∷ x ∷ xs else x ∷ insert e xs)) b at)
  | inr b ↦
      elim (Occurs-cons f x (insert e xs)
        (subst (λ t. Occurs f (if t then e ∷ x ∷ xs else x ∷ insert e xs)) b at)) [
          | inl same ↦ inr (0, ap some same)
          | inr later ↦ elim (insert-Occurs f e xs later) [
            | inl same ↦ inl same
            | inr there ↦ inr (Occurs-next f x xs there)
          ]
        ]
]

Occurs-insert_self : (e : SymEntry) (xs : List SymEntry) → Occurs e (insert e xs)
unfolding insert
Occurs-insert_self e [] = (0, refl)
Occurs-insert_self e (x ∷ xs) =
    if-all (Occurs e) (leb e.addr x.addr) _ _ (0, refl)
      (Occurs-next e x (insert e xs) (Occurs-insert_self e xs))

Occurs-insert : (f e : SymEntry) (xs : List SymEntry) → Occurs f xs → Occurs f (insert e xs)
unfolding insert
Occurs-insert f e [] at = absurd (cc at.1)
Occurs-insert f e (x ∷ xs) at =
    if-all (Occurs f) (leb e.addr x.addr) _ _ (Occurs-next f e (x ∷ xs) at)
      (elim (Occurs-cons f x xs at) [
        | inl same ↦ (0, ap some same)
        | inr there ↦ Occurs-next f x (insert e xs) (Occurs-insert f e xs there)
      ])

pub sort_from : (f : SymEntry) (xs : List SymEntry) → Occurs f (sort xs) → Occurs f xs
unfolding sort
sort_from f [] at = at
sort_from f (x ∷ xs) at = elim (insert-Occurs f x (sort xs) at) [
  | inl same ↦ (0, ap some same)
  | inr there ↦ Occurs-next f x xs (sort_from f xs there)
]

pub sort_to : (f : SymEntry) (xs : List SymEntry) → Occurs f xs → Occurs f (sort xs)
unfolding sort
sort_to f [] at = at
sort_to f (x ∷ xs) at = elim (Occurs-cons f x xs at) [
  | inl same ↦
      subst (λ (y : SymEntry). Occurs y (insert x (sort xs))) same (Occurs-insert_self x (sort xs))
  | inr there ↦ Occurs-insert f x (sort xs) (sort_to f xs there)
]

abbrev pub insertion_sort : Sorter
insertion_sort = record {
  sort = sort;
  sort-IsSorted = sort-IsSorted;
  sort-Occurs = sort_from;
  Occurs-sort = sort_to;
}
