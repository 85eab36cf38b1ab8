-- ===== src/Symbols/Find.antt =====
-- What the lookups of trace/Utils/SymbolTable.cpp find in a table that is sorted by address.
use mathlib.Core.Option.{some-injective}
use android_prybar.Base.{
  ℕ, zero, suc, ◌+◌, ◌-◌, ◌^◌, ◌≤◌, ◌<◌, ◌≡◌, refl, sym, ◌∙◌, subst, ◌≢◌, ◌↔◌, ◌⊎◌, inl, inr, true,
  false, none, some, List, [], ◌∷◌, arith, ltb, ◌==◌, if◌then◌else◌, u64, ltb→lt, ltb_false→le,
  ==_iff, Bool-cases, length, get_elem?, drop, All, get_elem?-some, All-get_elem?,
}
use android_prybar.Symbols.{
  SymEntry, SymbolTable, lower_bound, upper_bound, exact_head, find_exact, covers, find_containing,
  Occurs, IsSorted,
}

-- A sorted table is sorted at every two positions.
sorted-le :
    (es : List SymEntry) (i j : ℕ) {e f : SymEntry}
    → IsSorted es
    → i ≤ j
    → get_elem? es i ≡ some e
    → get_elem? es j ≡ some f
    → e.addr ≤ f.addr
sorted-le [] i j sorted h p q = absurd (cc p)
sorted-le (x ∷ es) zero zero sorted h p q = ground arith
sorted-le (x ∷ es) zero (suc j) {e} {f} sorted h p q =
    subst (λ (y : SymEntry). y.addr ≤ f.addr) (some-injective x e p)
      (All-get_elem? (λ y. x.addr ≤ y.addr) es j f sorted.0 q)
sorted-le (x ∷ es) (suc i) zero sorted h p q = absurd (omega arith)
sorted-le (x ∷ es) (suc i) (suc j) sorted h p q = sorted-le es i j sorted.1 (omega arith) p q

-- What holds of the first `k` entries.
abbrev First : (SymEntry → Type 0) → ℕ → List SymEntry → Type 0
First P k es = (i : ℕ) (f : SymEntry) → i < k → get_elem? es i ≡ some f → P f

First-cons :
    (P : SymEntry → Type 0) (k : ℕ) (x : SymEntry) (es : List SymEntry)
    → P x
    → First P k es
    → First P (suc k) (x ∷ es)
First-cons P k x es p ps zero f h e = subst P (some-injective x f e) p
First-cons P k x es p ps (suc i) f h e = ps i f (omega arith) e

get_elem?-cases :
    (es : List SymEntry) (k : ℕ)
    → ((drop k es ≡ []) × (length es ≤ k))
      ⊎ ((e : SymEntry) × (rest : List SymEntry) × (get_elem? es k ≡ some e)
          × (drop k es ≡ e ∷ rest))
get_elem?-cases [] zero = inl (refl, omega arith)
get_elem?-cases [] (suc k) = inl (refl, omega arith)
get_elem?-cases (x ∷ es) zero = inr (x, es, refl, refl)
get_elem?-cases (x ∷ es) (suc k) = elim (get_elem?-cases es k) [
  | inl p ↦ inl (p.0, omega arith)
  | inr p ↦ inr p
]

pub get_elem?-lt :
    (i : ℕ) (es : List SymEntry) {e : SymEntry} → get_elem? es i ≡ some e → i < length es
get_elem?-lt i [] h = absurd (cc h)
get_elem?-lt zero (x ∷ es) h = omega arith
get_elem?-lt (suc i) (x ∷ es) h = omega (arith, get_elem?-lt i es h)

module _ (addr : ℕ) where
  -- The entries that lower_bound passes are below the address, and it stops at the first that is not.
  lower_bound-drop :
      (es : List SymEntry)
      → (k : ℕ) × (lower_bound addr es ≡ drop k es)
        × First (λ f. f.addr < addr) k es
        × ((f : SymEntry) → get_elem? es k ≡ some f → addr ≤ f.addr)
  unfolding lower_bound
  lower_bound-drop [] = (0, refl, λ i f h e. absurd (cc e), λ f e. absurd (cc e))
  lower_bound-drop (x ∷ es) = elim (Bool-cases (ltb x.addr addr)) [
    | inr b ↦ (0, rw b, λ i f h e. absurd (omega arith), λ f e. ground arith)
    | inl b ↦
        let (k, found, below, stop) = lower_bound-drop es in
        (suc k, rw b found, First-cons _ k x es (ltb→lt _ _ b) below, stop)
  ]

  upper_bound-First :
      (es : List SymEntry)
      → (upper_bound addr es ≤ length es)
        × First (λ f. f.addr ≤ addr) (upper_bound addr es) es
        × ((f : SymEntry) → get_elem? es (upper_bound addr es) ≡ some f → addr < f.addr)
  unfolding upper_bound
  upper_bound-First [] = (omega arith, λ i f h e. absurd (cc e), λ f e. absurd (cc e))
  upper_bound-First (x ∷ es) = elim (Bool-cases (ltb addr x.addr)) [
    | inl b ↦ rw b (omega arith, λ i f h e. absurd (omega arith), λ f e. ground arith)
    | inr b ↦
        let (fits, below, stop) = upper_bound-First es in
        rw b (omega arith, First-cons _ (upper_bound addr es) x es (ltb_false→le _ _ b) below, stop)
  ]

  -- The entry with the greatest address at or below the one asked for.
  abbrev pub Nearest : SymbolTable → SymEntry → Type 0
  Nearest t e =
      Occurs e t.entries
      × (e.addr ≤ addr)
      × ((f : SymEntry) → Occurs f t.entries → f.addr ≤ addr → f.addr ≤ e.addr)

  -- The address is in the symbol, or in the 4 KiB that a symbol without a size gets.
  abbrev pub Reaches : SymEntry → Type 0
  Reaches e = ((0 < e.size) × (addr < e.addr + e.size)) ⊎ ((e.size ≡ 0) × (addr < e.addr + 0x1000))

  module _ (t : SymbolTable) (sorted : IsSorted t.entries) where
    above-bound :
        (k : ℕ)
        → ((f : SymEntry) → get_elem? t.entries k ≡ some f → addr < f.addr)
        → (i : ℕ) (f : SymEntry) → k ≤ i
        → get_elem? t.entries i ≡ some f
        → addr < f.addr
    above-bound k stop i f h e =
        let (g, at) = get_elem?-some t.entries k (omega (arith, get_elem?-lt i t.entries e)) in
        omega (arith, sorted-le t.entries k i sorted h at e, stop g at)

    absent :
        (k : ℕ) (e : SymEntry)
        → First (λ f. f.addr < addr) k t.entries
        → addr ≤ e.addr
        → (e.addr == addr) ≡ false
        → get_elem? t.entries k ≡ some e
        → (i : ℕ) (f : SymEntry) → get_elem? t.entries i ≡ some f
        → f.addr ≢ addr
    absent k e below stop other at i f here same = elim (Bool-cases (ltb i k)) [
      | inl b ↦ let h = below i f (ltb→lt _ _ b) here in omega (arith, same)
      | inr b ↦
          let h = sorted-le t.entries k i sorted (ltb_false→le _ _ b) at here in
          let ne : e.addr ≢ addr = ground arith in omega (arith, same, ne)
    ]

    -- findExact on a sorted table gives the name of an entry at the address, and null only if no entry
    -- has that address.
    pub find_exact_correct :
        ((e : SymEntry) × Occurs e t.entries × (e.addr ≡ addr) × (find_exact addr t ≡ some e.name))
        ⊎ ((find_exact addr t ≡ none) × ((e : SymEntry) → Occurs e t.entries → e.addr ≢ addr))
    unfolding find_exact exact_head
    find_exact_correct =
        let (k, found, below, stop) = lower_bound-drop t.entries in
        elim (get_elem?-cases t.entries k) [
          | inl past ↦ inr (
            rw (found, past.0),
            λ e at same.
                let h =
                  below at.0 e (omega (arith, get_elem?-lt at.0 t.entries at.1, past.1)) at.1 in
                absurd (omega (arith, same)),
          )
          | inr (e, rest, at, cut) ↦ elim (Bool-cases (e.addr == addr)) [
            | inl b ↦ inl (e, (k, at), (==_iff _ _).0 b, rw (found, cut) (rw b))
            | inr b ↦ inr (
              rw (found, cut) (rw b),
              λ f other same. absent k e below (stop e at) b at other.0 f other.1 same,
            )
          ]
        ]

    nearest :
        (k : ℕ) (e : SymEntry)
        → get_elem? t.entries k ≡ some e
        → upper_bound addr t.entries ≡ k + 1
        → (i : ℕ) (f : SymEntry) → get_elem? t.entries i ≡ some f
        → f.addr ≤ addr
        → f.addr ≤ e.addr
    nearest k e at bound i f here under = elim (Bool-cases (ltb k i)) [
      | inl b ↦
          let (fits, below, stop) = upper_bound-First t.entries in
          let h = ltb→lt _ _ b in
          let above =
            above-bound (upper_bound addr t.entries) stop i f (omega (arith, bound, h)) here in
          absurd (omega (arith, above, under))
      | inr b ↦ sorted-le t.entries i k sorted (ltb_false→le _ _ b) here at
    ]

    covers_iff :
        (e : SymEntry)
        → e.addr ≤ addr
        → addr < 2 ^ 64
        → e.addr + e.size < 2 ^ 64
        → (covers addr e ≡ true) ↔ Reaches e
    unfolding covers
    covers_iff e h small fits =
        let sum : u64 (e.addr + e.size) ≡ e.addr + e.size = omega arith in
        let gap : u64 (addr + 2 ^ 64 - e.addr) ≡ addr - e.addr = omega arith in
        rw (sum, gap) (ground arith)

    find_containing-cases :
        ((find_containing addr t ≡ none) × ((f : SymEntry) → Occurs f t.entries → addr < f.addr))
        ⊎ ((e : SymEntry) × Nearest t e
            × (find_containing addr t ≡ (if covers addr e then some e else none)))
    unfolding find_containing
    find_containing-cases =
        let es = t.entries in
        let (fits, below, stop) = upper_bound-First es in
        elim (Bool-cases (upper_bound addr es == 0)) [
          | inl b ↦
              let zero_bound : upper_bound addr es ≡ 0 = (==_iff _ 0).0 b in
              inl (rw b, λ f at. above-bound _ stop at.0 f (omega (arith, zero_bound)) at.1)
          | inr b ↦
              let last = upper_bound addr es - 1 in
              let some_bound : upper_bound addr es ≢ 0 = ground arith in
              let (e, at) = get_elem?-some es last (omega (arith, fits, some_bound)) in
              let near : Nearest t e = (
                (last, at),
                below last e (omega (arith, some_bound)) at,
                λ f here under. nearest last e at (omega (arith, some_bound)) here.0 f here.1 under,
              ) in
              inr (e, near, rw (b, at))
        ]

    -- findContaining on a sorted table gives the entry with the greatest address at or below the one
    -- asked for if that entry reaches it, and null otherwise.
    pub find_containing_correct :
        addr < 2 ^ 64
        → All (λ f. f.addr + f.size < 2 ^ 64) t.entries
        → ((e : SymEntry) × Nearest t e × Reaches e × (find_containing addr t ≡ some e))
          ⊎ ((find_containing addr t ≡ none)
              × (((f : SymEntry) → Occurs f t.entries → addr < f.addr)
                  ⊎ ((e : SymEntry) × Nearest t e × ¬ Reaches e)))
    find_containing_correct small fit = elim find_containing-cases [
      | inl (nothing, above) ↦ inr (nothing, inl above)
      | inr (e, near, found) ↦
          let reach =
            covers_iff e near.1 small (All-get_elem? _ t.entries near.0.0 e fit near.0.1) in
          elim (Bool-cases (covers addr e)) [
            | inl c ↦ inl (e, near, reach.0 c, rw c at found)
            | inr c ↦ inr (rw c at found, inr (e, near, λ r. cc (reach.1 r, c)))
          ]
    ]

    -- What findContaining gives is the nearest entry.
    pub find_containing-Nearest :
        {e : SymEntry} → find_containing addr t ≡ some e → Nearest t e × (covers addr e ≡ true)
    find_containing-Nearest {e} h = elim find_containing-cases [
      | inl none_at ↦ absurd (cc (none_at.0, h))
      | inr (x, near, found) ↦ elim (Bool-cases (covers addr x)) [
        | inl c ↦
            let same : x ≡ e = some-injective x e (sym (rw c at found) ∙ h) in
            subst (λ (y : SymEntry). Nearest t y × (covers addr y ≡ true)) same (near, c)
        | inr c ↦ absurd (cc (rw c at found, h))
      ]
    ]
