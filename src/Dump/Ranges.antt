-- ===== src/Dump/Ranges.antt =====
-- The ranges of coalesce in trace/src/TraceUnidbgDump.cpp.
use android_prybar.Base.{
  ℕ, ◌+◌, ◌-◌, ◌*◌, ◌%◌, ◌^◌, ◌≤◌, ◌<◌, ◌≡◌, refl, sym, subst, ◌↔◌, ◌⊎◌, inl, inr, List, [], ◌∷◌,
  arith, ltb, leb, if◌then◌else◌, ltb→lt, leb→le, Bool-cases, All,
}
use android_prybar.Dump.{page_start, page_end, merge, ranges_of}

-- An address lies in one of the ranges.
abbrev pub Covered : ℕ → List (ℕ × ℕ) → Type 0
Covered a [] = ⊥
Covered a (r ∷ rest) = ((r.0 ≤ a) × (a < r.1)) ⊎ Covered a rest

-- An address lies on one of the pages.
abbrev pub OnPage : ℕ → List ℕ → Type 0
OnPage a [] = ⊥
OnPage a (p ∷ ps) = ((p * 4096 ≤ a) × (a < (p + 1) * 4096)) ⊎ OnPage a ps

-- Pages in order, each before the last page of the address space.
abbrev pub IsOrdered : List ℕ → Type 0
IsOrdered [] = Unit {0}
IsOrdered (p ∷ ps) = (p < 2 ^ 52 - 1) × All (λ q. p ≤ q) ps × IsOrdered ps

-- Ranges of whole pages that follow one another with a gap between them.
abbrev pub IsSeparate : List (ℕ × ℕ) → Type 0
IsSeparate [] = Unit {0}
IsSeparate (r ∷ rest) =
    (r.0 < r.1) × (r.0 % 4096 ≡ 0) × (r.1 % 4096 ≡ 0) × All (λ q. r.1 < q.0) rest × IsSeparate rest

page_start_lem : (p : ℕ) → p < 2 ^ 52 - 1 → page_start p ≡ p * 4096
page_start_lem p h = omega arith

page_end_lem : (p : ℕ) → p < 2 ^ 52 - 1 → page_end p ≡ (p + 1) * 4096
page_end_lem p h = omega arith

-- The end of the range that a page joins.
abbrev joined_end : ℕ → ℕ → ℕ
joined_end e p = if ltb e ((p + 1) * 4096) then (p + 1) * 4096 else e

merge-step :
    (s e p : ℕ) (ps : List ℕ)
    → p < 2 ^ 52 - 1
    → (merge (s, e) (p ∷ ps) ≡ merge (s, joined_end e p) ps) × (p * 4096 ≤ e)
      ⊎ (merge (s, e) (p ∷ ps) ≡ (s, e) ∷ merge (p * 4096, (p + 1) * 4096) ps) × (e < p * 4096)
unfolding merge
merge-step s e p ps h = elim (Bool-cases (leb (p * 4096) e)) [
  | inl b ↦ inl (rw (page_start_lem p h, page_end_lem p h, b), leb→le (p * 4096) e b)
  | inr b ↦ inr (rw (page_start_lem p h, page_end_lem p h, b), ground arith)
]

merge-nil : (r : ℕ × ℕ) → merge r [] ≡ r ∷ []
unfolding merge
merge-nil r = refl

starts_after : (p : ℕ) (ps : List ℕ) → All (λ q. p ≤ q) ps → All (λ q. p * 4096 ≤ q * 4096) ps
starts_after p [] all = tt
starts_after p (q ∷ qs) all = (omega (arith, all.0), starts_after p qs all.1)

abbrev Within : ℕ → ℕ → ℕ → Type 0
Within a s e = (s ≤ a) × (a < e)

merge-Within :
    (a s e : ℕ) (ps : List ℕ)
    → IsOrdered ps
    → All (λ q. s ≤ q * 4096) ps
    → Covered a (merge (s, e) ps)
    → Within a s e ⊎ OnPage a ps
merge-Within a s e [] order below c = elim (subst (Covered a) (merge-nil (s, e)) c) [
  | inl w ↦ inl w
  | inr none_left ↦ elim none_left [ ]
]
merge-Within a s e (p ∷ ps) order below c = elim (merge-step s e p ps order.0) [
  | inl j ↦ elim (merge-Within a s (joined_end e p) ps order.2 below.1 (subst (Covered a) j.0 c)) [
    | inr there ↦ inr (inr there)
    | inl w ↦ elim (Bool-cases (ltb a e)) [
      | inl b ↦ inl (w.0, ltb→lt a e b)
      | inr b ↦ inr (inl (ground (arith, j, w), ground (arith, j, w)))
    ]
  ]
  | inr g ↦ elim (subst (Covered a) g.0 c) [
    | inl w ↦ inl w
    | inr behind ↦
        inr
          (merge-Within a (p * 4096) ((p + 1) * 4096) ps order.2 (starts_after p ps order.1) behind)
  ]
]

merge-reaches :
    (a s e : ℕ) (ps : List ℕ)
    → IsOrdered ps
    → All (λ q. s ≤ q * 4096) ps
    → Within a s e ⊎ OnPage a ps
    → Covered a (merge (s, e) ps)
merge-reaches a s e [] order below (inl w) = subst (Covered a) (sym (merge-nil (s, e))) (inl w)
merge-reaches a s e [] order below (inr none_left) = elim none_left [ ]
merge-reaches a s e (p ∷ ps) order below at = elim (merge-step s e p ps order.0) [
  | inl j ↦
      let grown : Within a s (joined_end e p) ⊎ OnPage a ps = elim at [
        | inl w ↦ inl (w.0, ground (arith, w))
        | inr (inl w) ↦ inl (omega (arith, below.0, w.0), ground (arith, w))
        | inr (inr there) ↦ inr there
      ] in
      subst (Covered a) (sym j.0) (merge-reaches a s (joined_end e p) ps order.2 below.1 grown)
  | inr g ↦ subst (Covered a) (sym g.0) (elim at [
    | inl w ↦ inl w
    | inr there ↦
        inr
          (merge-reaches a (p * 4096) ((p + 1) * 4096) ps order.2 (starts_after p ps order.1) there)
  ])
]

-- Every range that is made starts at the first one or later.
merge-starts :
    (k s e : ℕ) (ps : List ℕ)
    → IsOrdered ps
    → k < s
    → All (λ q. s ≤ q * 4096) ps
    → All (λ r. k < r.0) (merge (s, e) ps)
merge-starts k s e [] order low below =
    subst (All (λ r. k < r.0)) (sym (merge-nil (s, e))) (low, tt)
merge-starts k s e (p ∷ ps) order low below = elim (merge-step s e p ps order.0) [
  | inl j ↦
      subst (All (λ r. k < r.0)) (sym j.0)
        (merge-starts k s (joined_end e p) ps order.2 low below.1)
  | inr g ↦ subst (All (λ r. k < r.0)) (sym g.0) (
    low,
    merge-starts k (p * 4096) ((p + 1) * 4096) ps order.2 (omega (arith, below.0))
        (starts_after p ps order.1),
  )
]

merge-IsSeparate :
    (s e : ℕ) (ps : List ℕ)
    → IsOrdered ps
    → All (λ q. s ≤ q * 4096) ps
    → s < e
    → s % 4096 ≡ 0
    → e % 4096 ≡ 0
    → IsSeparate (merge (s, e) ps)
merge-IsSeparate s e [] order below some_byte whole whole' =
    subst IsSeparate (sym (merge-nil (s, e))) (some_byte, whole, whole', tt, tt)
merge-IsSeparate s e (p ∷ ps) order below some_byte whole whole' =
    let full : (p * 4096) % 4096 ≡ 0 = omega arith in
    let full' : ((p + 1) * 4096) % 4096 ≡ 0 = omega arith in
    elim (merge-step s e p ps order.0) [
      | inl j ↦ subst IsSeparate (sym j.0) (
          merge-IsSeparate s (joined_end e p) ps order.2 below.1 (ground arith) whole
            (elim (Bool-cases (ltb e ((p + 1) * 4096))) [
              | inl b ↦ rw b full'
              | inr b ↦ rw b whole'
            ]))
      | inr g ↦ subst IsSeparate (sym g.0) (
        some_byte,
        whole,
        whole',
        merge-starts e (p * 4096) ((p + 1) * 4096) ps order.2 g.1 (starts_after p ps order.1),
        merge-IsSeparate (p * 4096) ((p + 1) * 4096) ps order.2 (starts_after p ps order.1)
            (omega arith) full full',
      )
    ]

-- Of pages in order, the ranges are whole pages that follow one another with a gap between them, and an
-- address lies in one of them exactly if it lies on one of the pages.
pub ranges_of-exact :
    (ps : List ℕ)
    → IsOrdered ps
    → IsSeparate (ranges_of ps) × ((a : ℕ) → Covered a (ranges_of ps) ↔ OnPage a ps)
unfolding ranges_of
ranges_of-exact [] order = (tt, λ a. (λ c. c, λ c. c))
ranges_of-exact (p ∷ ps) order =
    rw (page_start_lem p order.0, page_end_lem p order.0)
      (
        merge-IsSeparate (p * 4096) ((p + 1) * 4096) ps order.2 (starts_after p ps order.1)
            (omega arith) (omega arith) (omega arith),
        λ a. (
          merge-Within a (p * 4096) ((p + 1) * 4096) ps order.2 (starts_after p ps order.1),
          merge-reaches a (p * 4096) ((p + 1) * 4096) ps order.2 (starts_after p ps order.1),
        ),
      )
