-- ===== src/Regions/Search.antt =====
-- findPtrRegion of trace/src/FuncCallTrace.cpp finds the region of an address.
use mathlib.Core.Option.{some-injective}
use android_prybar.Base.{
  ℕ, zero, suc, ◌+◌, ◌/◌, ◌≤◌, ◌<◌, ◌≡◌, sym, ap, ◌∙◌, subst, ◌⊎◌, inl, inr, Option, none, some,
  List, [], ◌∷◌, arith, ltb, leb, ltb→lt, ltb_false→le, leb→le, leb_false→lt, Bool-cases, length,
  get_elem?, All, get_elem?-some, All-get_elem?,
}
use android_prybar.Regions.{PtrRegion, search_loop, find_ptr_region}

-- The regions follow one another, as the lines of the file do.
abbrev pub IsAscending : List PtrRegion → Type 0
IsAscending [] = Unit {0}
IsAscending (r ∷ rs) = (r.start ≤ r.end) × All (λ q. r.end ≤ q.start) rs × IsAscending rs

abbrev pub Contains : ℕ → PtrRegion → Type 0
Contains addr r = (r.start ≤ addr) × (addr < r.end)

ascending-le :
    (rs : List PtrRegion) (i j : ℕ) {r q : PtrRegion}
    → IsAscending rs
    → i < j
    → get_elem? rs i ≡ some r
    → get_elem? rs j ≡ some q
    → r.end ≤ q.start
ascending-le [] i j up h p e = absurd (cc p)
ascending-le (x ∷ rs) i zero up h p e = absurd (omega arith)
ascending-le (x ∷ rs) zero (suc j) {r} {q} up h p e =
    subst (λ (y : PtrRegion). y.end ≤ q.start) (some-injective x r p)
      (All-get_elem? (λ y. x.end ≤ y.start) rs j q up.1 e)
ascending-le (x ∷ rs) (suc i) (suc j) up h p e = ascending-le rs i j up.2 (omega arith) p e

ascending-nonempty :
    (rs : List PtrRegion) (i : ℕ) {r : PtrRegion}
    → IsAscending rs
    → get_elem? rs i ≡ some r
    → r.start ≤ r.end
ascending-nonempty [] i up p = absurd (cc p)
ascending-nonempty (x ∷ rs) zero {r} up p =
    subst (λ (y : PtrRegion). y.start ≤ y.end) (some-injective x r p) up.0
ascending-nonempty (x ∷ rs) (suc i) up p = ascending-nonempty rs i up.2 p

pub get_elem?-lt :
    (i : ℕ) (rs : List PtrRegion) {r : PtrRegion} → get_elem? rs i ≡ some r → i < length rs
get_elem?-lt i [] h = absurd (cc h)
get_elem?-lt zero (x ∷ rs) h = omega arith
get_elem?-lt (suc i) (x ∷ rs) h = omega (arith, get_elem?-lt i rs h)

-- A search's result: the region of the address, or null and no region contains it.
abbrev pub Finds : ℕ → List PtrRegion → Option (Option PtrRegion) → Type 0
Finds addr rs o =
    ((i : ℕ) × (r : PtrRegion) × (get_elem? rs i ≡ some r) × Contains addr r × (o ≡ some (some r)))
    ⊎ ((o ≡ some none) × ((i : ℕ) (r : PtrRegion) → get_elem? rs i ≡ some r → ¬ Contains addr r))

module _ (addr : ℕ) (rs : List PtrRegion) (up : IsAscending rs) where
  -- The region at the address, if there is one, stands between `lo` and `hi`.
  abbrev Between : ℕ → ℕ → Type 0
  Between lo hi =
      (i : ℕ) (r : PtrRegion) → get_elem? rs i ≡ some r → Contains addr r → (lo ≤ i) × (i < hi)

  left-Between :
      (lo hi mid : ℕ) (r : PtrRegion)
      → get_elem? rs mid ≡ some r
      → addr < r.start
      → Between lo hi
      → Between lo mid
  left-Between lo hi mid r here h between i q at c =
      let w = between i q at c in
      elim (Bool-cases (ltb i mid)) [
        | inl b ↦ (w.0, ltb→lt _ _ b)
        | inr b ↦ elim (Bool-cases (ltb mid i)) [
          | inl later ↦ absurd (
              omega (
                arith,
                ascending-le rs mid i up (ltb→lt _ _ later) here at,
                ascending-nonempty rs mid up here,
                c,
              ))
          | inr same ↦
              let e : i ≡ mid = omega (arith, ltb_false→le _ _ b, ltb_false→le _ _ same) in
              let eq : q ≡ r = some-injective q r (sym at ∙ ap (get_elem? rs) e ∙ here) in
              absurd (omega (arith, ap (λ (x : PtrRegion). x.start) eq, c))
        ]
      ]

  right-Between :
      (lo hi mid : ℕ) (r : PtrRegion)
      → get_elem? rs mid ≡ some r
      → r.end ≤ addr
      → Between lo hi
      → Between (mid + 1) hi
  right-Between lo hi mid r here h between i q at c =
      let w = between i q at c in
      elim (Bool-cases (ltb mid i)) [
        | inl b ↦ (omega (arith, ltb→lt _ _ b), w.1)
        | inr b ↦ elim (Bool-cases (ltb i mid)) [
          | inl earlier ↦ absurd (
              omega (
                arith,
                ascending-le rs i mid up (ltb→lt _ _ earlier) at here,
                ascending-nonempty rs mid up here,
                c,
              ))
          | inr same ↦
              let e : i ≡ mid = omega (arith, ltb_false→le _ _ b, ltb_false→le _ _ same) in
              let eq : q ≡ r = some-injective q r (sym at ∙ ap (get_elem? rs) e ∙ here) in
              absurd (omega (arith, ap (λ (x : PtrRegion). x.end) eq, c))
        ]
      ]

  search_loop-Finds :
      (fuel lo hi : ℕ)
      → lo ≤ hi
      → hi < lo + fuel
      → hi ≤ length rs
      → Between lo hi
      → Finds addr rs (search_loop fuel addr rs lo hi)
  unfolding search_loop
  search_loop-Finds zero lo hi o h fits between = absurd (omega arith)
  search_loop-Finds (suc fuel) lo hi o h fits between = elim (Bool-cases (ltb lo hi)) [
    | inr b ↦ inr (
      rw b,
      λ i r at c. let w = between i r at c in absurd (omega (arith, w, ltb_false→le _ _ b)),
    )
    | inl b ↦
        let less = ltb→lt _ _ b in
        let mid = (lo + hi) / 2 in
        let (r, at) = get_elem?-some rs mid (omega (arith, less)) in
        elim (Bool-cases (ltb addr r.start)) [
          | inl left ↦
              rw (b, at)
                (rw left (
                  search_loop-Finds fuel lo mid (omega (arith, less)) (omega (arith, less))
                    (omega (arith, less)) (left-Between lo hi mid r at (ltb→lt _ _ left) between)))
          | inr here ↦ elim (Bool-cases (leb r.end addr)) [
            | inl right ↦
                rw (b, at)
                  (rw (here, right)
                    (search_loop-Finds fuel (mid + 1) hi (omega (arith, less)) (omega (arith, less))
                      fits (right-Between lo hi mid r at (leb→le _ _ right) between)))
            | inr inside ↦ inl (
              mid,
              r,
              at,
              (ltb_false→le _ _ here, leb_false→lt _ _ inside),
              rw (b, at) (rw (here, inside)),
            )
          ]
        ]
  ]

  -- findPtrRegion on regions that follow one another always gives a result: the region that contains
  -- the address, or null exactly if no region does.
  pub find_ptr_region-Finds : Finds addr rs (find_ptr_region addr rs)
  unfolding find_ptr_region
  find_ptr_region-Finds =
      search_loop-Finds (suc (length rs)) 0 (length rs) (omega arith) (omega arith) (omega arith)
        (λ i r at c. (omega arith, get_elem?-lt i rs at))

  -- Two regions that contain one address are the same.
  pub Contains-unique :
      (i j : ℕ) (r q : PtrRegion)
      → get_elem? rs i ≡ some r
      → get_elem? rs j ≡ some q
      → Contains addr r
      → Contains addr q
      → r ≡ q
  Contains-unique i j r q at here c d = elim (Bool-cases (ltb i j)) [
    | inl b ↦ absurd (omega (arith, ascending-le rs i j up (ltb→lt _ _ b) at here, c, d))
    | inr b ↦ elim (Bool-cases (ltb j i)) [
      | inl b' ↦ absurd (omega (arith, ascending-le rs j i up (ltb→lt _ _ b') here at, c, d))
      | inr b' ↦
          let e : i ≡ j = omega (arith, ltb_false→le _ _ b, ltb_false→le _ _ b') in
          some-injective r q (sym at ∙ ap (get_elem? rs) e ∙ here)
    ]
  ]

-- The search comes to an end on any regions, in order or not.
search_loop_total :
    (addr : ℕ) (rs : List PtrRegion) (fuel lo hi : ℕ)
    → lo ≤ hi
    → hi < lo + fuel
    → hi ≤ length rs
    → (o : Option PtrRegion) × (search_loop fuel addr rs lo hi ≡ some o)
unfolding search_loop
search_loop_total addr rs zero lo hi o h fits = absurd (omega arith)
search_loop_total addr rs (suc fuel) lo hi o h fits = elim (Bool-cases (ltb lo hi)) [
  | inr b ↦ (none, rw b)
  | inl b ↦
      let less = ltb→lt _ _ b in
      let mid = (lo + hi) / 2 in
      let (r, at) = get_elem?-some rs mid (omega (arith, less)) in
      elim (Bool-cases (ltb addr r.start)) [
        | inl left ↦
            rw (b, at)
              (rw left (
                search_loop_total addr rs fuel lo mid (omega (arith, less)) (omega (arith, less))
                  (omega (arith, less))))
        | inr here ↦ elim (Bool-cases (leb r.end addr)) [
          | inl right ↦
              rw (b, at)
                (rw (here, right)
                  (search_loop_total addr rs fuel (mid + 1) hi (omega (arith, less))
                    (omega (arith, less)) fits))
          | inr inside ↦ (some r, rw (b, at) (rw (here, inside)))
        ]
      ]
]

pub find_ptr_region_total :
    (addr : ℕ) (rs : List PtrRegion) → (o : Option PtrRegion) × (find_ptr_region addr rs ≡ some o)
unfolding find_ptr_region
find_ptr_region_total addr rs =
    search_loop_total addr rs (suc (length rs)) 0 (length rs) (omega arith) (omega arith)
      (omega arith)
