-- ===== src/Dump/Fresh.antt =====
-- Which pages trace/src/TraceUnidbgDump.cpp writes, over several calls of the function.
use android_prybar.Base.{
  ℕ, ◌≡◌, refl, sym, subst, inl, inr, true, false, not, ◌&&◌, ◌||◌, List, [], ◌∷◌, arith, ◌==◌,
  ==_iff, Bool-cases,
}
use android_prybar.Dump.{contains, insert_page, fresh_pages}

contains-insert_page :
    (p q : ℕ) (ps : List ℕ) → contains p (insert_page q ps) ≡ (q == p || contains p ps)
unfolding contains insert_page
contains-insert_page p q ps = elim (Bool-cases (contains q ps)) [
  | inr e ↦ rw e
  | inl e ↦ elim (Bool-cases (q == p)) [
    | inr d ↦ rw (e, d)
    | inl d ↦
        let same : q ≡ p = (==_iff q p).0 d in rw (e, d) (subst (λ r. contains r ps ≡ true) same e)
  ]
]

-- A page is written now exactly if it is gathered and was not written before, and afterwards those count as
-- written that were before or are gathered: no page is written twice, and none is forgotten.
pub fresh_pages-contains :
    (p : ℕ) (pages dumped : List ℕ)
    → (contains p (fresh_pages pages dumped).0 ≡ (contains p pages && not (contains p dumped)))
      × (contains p (fresh_pages pages dumped).1 ≡ (contains p pages || contains p dumped))
unfolding contains fresh_pages
fresh_pages-contains p [] dumped = (refl, refl)
fresh_pages-contains p (q ∷ ps) dumped =
    let (now, after) = fresh_pages-contains p ps (insert_page q dumped) in
    let noted = contains-insert_page p q dumped in
    elim (Bool-cases (q == p)) [
      | inl e ↦
          let same : q ≡ p = (==_iff q p).0 e in
          elim (Bool-cases (contains p dumped)) [
            | inl c ↦
                let old : contains q dumped ≡ true =
                  subst (λ r. contains r dumped ≡ true) (sym same) c in
                (rw (old, now, noted, e, c) (ground arith), rw (after, noted, e) (ground arith))
            | inr c ↦
                let new : contains q dumped ≡ false =
                  subst (λ r. contains r dumped ≡ false) (sym same) c in
                (rw (new, e, c) (ground arith), rw (after, noted, e) (ground arith))
          ]
      | inr e ↦ elim (Bool-cases (contains q dumped)) [
        | inl c ↦ (rw (c, now, noted, e), rw (after, noted, e))
        | inr c ↦ (rw (c, e, now, noted, e), rw (after, noted, e))
      ]
    ]
