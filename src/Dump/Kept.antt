-- ===== src/Dump/Kept.antt =====
-- The snapshots that on_mem of trace/src/TraceUnidbgDump.cpp takes.
use mathlib.Core.Option.{some-injective}
use android_prybar.Base.{
  ℕ, zero, suc, ◌+◌, ◌*◌, ◌/◌, ◌≤◌, ◌<◌, ◌≡◌, refl, sym, ap, ◌∙◌, subst, ◌⊎◌, inl, inr, Bool, true,
  none, some, List, ◌∷◌, arith, ◌==◌, ==_iff, Bool-cases, Option-cases,
}
use android_prybar.Dump.{
  Memory, bytes_from, page_of, DumpSession, insert_page, find_written, visit_page, visit_pages,
}

bytes_from-agree :
    (mem mem' : Memory) (addr n : ℕ)
    → ((b : ℕ) → addr ≤ b → b < addr + n → mem b ≡ mem' b)
    → bytes_from mem addr n ≡ bytes_from mem' addr n
unfolding bytes_from
bytes_from-agree mem mem' addr zero same = refl
bytes_from-agree mem mem' addr (suc n) same = rw (
  same addr (omega arith) (omega arith),
  bytes_from-agree mem mem' (addr + 1) n (λ b l h. same b (omega arith) (omega arith)),
)

-- A page's bytes are all that its content depends on.
pub page_of-agree :
    (mem mem' : Memory) (p : ℕ)
    → ((b : ℕ) → b / 4096 ≡ p → mem b ≡ mem' b)
    → page_of mem p ≡ page_of mem' p
unfolding page_of
page_of-agree mem mem' p same =
    bytes_from-agree mem mem' (p * 4096) 4096 (λ b l h. same b (omega arith))

-- A page has a snapshot, which is its content at entry, or it has none and its bytes are those at entry.
abbrev pub Kept : Memory → Memory → List (ℕ × List ℕ) → ℕ → Type 0
Kept mem0 mem written p =
    ((snap : List ℕ) × (find_written p written ≡ some snap) × (page_of mem0 p ≡ some snap))
    ⊎ ((find_written p written ≡ none) × ((b : ℕ) → b / 4096 ≡ p → mem b ≡ mem0 b))

abbrev pub AllKept : Memory → Memory → DumpSession → Type 0
AllKept mem0 mem s = (p : ℕ) → Kept mem0 mem s.written p

-- What a visit does to the snapshots.
visit_page-written :
    (w : Bool) (mem : Memory) (p : ℕ) (s s' : DumpSession)
    → visit_page w mem p s ≡ some s'
    → ((s'.written ≡ s.written)
        × (w ≡ true → (snap : List ℕ) × (find_written p s.written ≡ some snap)))
      ⊎ ((snap : List ℕ) × (find_written p s.written ≡ none)
          × (page_of mem p ≡ some snap)
          × (s'.written ≡ (p, snap) ∷ s.written))
unfolding visit_page
visit_page-written w mem p s s' h =
    let seen : DumpSession = record s { pages = insert_page p s.pages } in
    elim (Bool-cases w) [
      | inr f ↦
          let e : some seen ≡ some s' = rw f at h in
          inl (
            sym (ap (λ (r : DumpSession). r.written) (some-injective seen s' e)),
            λ t. absurd (cc (t, f)),
          )
      | inl t ↦ elim (Option-cases (find_written p s.written)) [
        | inr q ↦
            let e : some seen ≡ some s' = rw (t, q.1) at h in
            inl (sym (ap (λ (r : DumpSession). r.written) (some-injective seen s' e)), λ _. q)
        | inl n ↦ elim (Option-cases (page_of mem p)) [
          | inl m ↦ let e : none ≡ some s' = rw (t, n, m) at h in absurd (cc e)
          | inr c ↦
              let taken : DumpSession = record seen { written = (p, c.0) ∷ s.written } in
              let e : some taken ≡ some s' = rw (t, n, c.1) at h in
              inr
                (c.0, n, c.1, sym (ap (λ (r : DumpSession). r.written) (some-injective taken s' e)))
        ]
      ]
    ]

-- A snapshot in front.
find_written-cons :
    (q p : ℕ) (snap : List ℕ) (written : List (ℕ × List ℕ))
    → ((q ≡ p) × (find_written q ((p, snap) ∷ written) ≡ some snap))
      ⊎ (find_written q ((p, snap) ∷ written) ≡ find_written q written)
unfolding find_written
find_written-cons q p snap written = elim (Bool-cases (p == q)) [
  | inl e ↦ inl (sym ((==_iff p q).0 e), rw e)
  | inr e ↦ inr (rw e)
]

find_written_self :
    (q p : ℕ) (snap : List ℕ) (written : List (ℕ × List ℕ))
    → q ≡ p
    → find_written q ((p, snap) ∷ written) ≡ some snap
unfolding find_written
find_written_self q p snap written d = rw ((==_iff p q).1 (sym d))

-- A visit keeps what holds of the pages.
visit_page-AllKept :
    (w : Bool) (mem0 mem : Memory) (p : ℕ) (s s' : DumpSession)
    → visit_page w mem p s ≡ some s'
    → AllKept mem0 mem s
    → AllKept mem0 mem s'
visit_page-AllKept w mem0 mem p s s' h kept q = elim (visit_page-written w mem p s s' h) [
  | inl same ↦ subst (λ written. Kept mem0 mem written q) (sym same.0) (kept q)
  | inr (snap, n, page, new) ↦
      subst (λ written. Kept mem0 mem written q) (sym new)
        (elim (find_written-cons q p snap s.written) [
          | inl (e, found) ↦ elim (kept p) [
            | inl (other, f, g) ↦ absurd (cc (n, f))
            | inr (f, same) ↦
                inl
                  (snap, found, ap (page_of mem0) e ∙ (sym (page_of-agree mem mem0 p same) ∙ page))
          ]
          | inr e ↦
              subst
                (λ o.
                  ((x : List ℕ) × (o ≡ some x) × (page_of mem0 q ≡ some x))
                  ⊎ ((o ≡ none) × ((b : ℕ) → b / 4096 ≡ q → mem b ≡ mem0 b)))
                (sym e) (kept q)
        ])
]

abbrev pub HasSnapshot : ℕ → DumpSession → Type 0
HasSnapshot q s = (snap : List ℕ) × (find_written q s.written ≡ some snap)

visit_page-keeps :
    (w : Bool) (mem : Memory) (p q : ℕ) (s s' : DumpSession)
    → visit_page w mem p s ≡ some s'
    → HasSnapshot q s ⊎ ((q ≡ p) × (w ≡ true))
    → HasSnapshot q s'
visit_page-keeps w mem p q s s' h has = elim (visit_page-written w mem p s s' h) [
  | inl same ↦
      subst (λ written. (x : List ℕ) × (find_written q written ≡ some x)) (sym same.0)
        (elim has [
          | inl there ↦ there
          | inr (e, t) ↦
              subst (λ r. (x : List ℕ) × (find_written r s.written ≡ some x)) (sym e) (same.1 t)
        ])
  | inr (snap, n, page, new) ↦
      subst (λ written. (x : List ℕ) × (find_written q written ≡ some x)) (sym new)
        (elim (find_written-cons q p snap s.written) [
          | inl (e, found) ↦ (snap, found)
          | inr e ↦ elim has [
            | inl (x, f) ↦ (x, e ∙ f)
            | inr (d, t) ↦ (snap, find_written_self q p snap s.written d)
          ]
        ])
]

-- The loop keeps what holds of the pages, and a write leaves every page that it touches with a snapshot.
pub visit_pages-keeps :
    (w : Bool) (mem : Memory) (n p q : ℕ) (s s' : DumpSession)
    → visit_pages w mem n p s ≡ some s'
    → HasSnapshot q s ⊎ ((p ≤ q) × (q < p + n) × (w ≡ true))
    → HasSnapshot q s'
unfolding visit_pages
visit_pages-keeps w mem zero p q s s' h (inl there) =
    subst (HasSnapshot q) (some-injective s s' h) there
visit_pages-keeps w mem zero p q s s' h (inr (l, r, t)) = absurd (omega arith)
visit_pages-keeps w mem (suc n) p q s s' h has = elim (Option-cases (visit_page w mem p s)) [
  | inl m ↦ let e : none ≡ some s' = rw m at h in absurd (cc e)
  | inr (s1, e) ↦
      let rest : visit_pages w mem n (p + 1) s1 ≡ some s' = rw e at h in
      visit_pages-keeps w mem n (p + 1) q s1 s' rest (elim has [
        | inl there ↦ inl (visit_page-keeps w mem p q s s1 e (inl there))
        | inr (l, r, t) ↦ elim (Bool-cases (q == p)) [
          | inl same ↦ inl (visit_page-keeps w mem p q s s1 e (inr ((==_iff q p).0 same, t)))
          | inr other ↦ inr (ground arith, omega arith, t)
        ]
      ])
]

pub visit_pages-AllKept :
    (w : Bool) (mem0 mem : Memory) (n p : ℕ) (s s' : DumpSession)
    → visit_pages w mem n p s ≡ some s'
    → AllKept mem0 mem s
    → AllKept mem0 mem s'
unfolding visit_pages
visit_pages-AllKept w mem0 mem zero p s s' h kept =
    subst (AllKept mem0 mem) (some-injective s s' h) kept
visit_pages-AllKept w mem0 mem (suc n) p s s' h kept = elim (Option-cases (visit_page w mem p s)) [
  | inl m ↦ let e : none ≡ some s' = rw m at h in absurd (cc e)
  | inr (s1, e) ↦
      let rest : visit_pages w mem n (p + 1) s1 ≡ some s' = rw e at h in
      visit_pages-AllKept w mem0 mem n (p + 1) s1 s' rest
        (visit_page-AllKept w mem0 mem p s s1 e kept)
]
