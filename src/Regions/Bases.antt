-- ===== src/Regions/Bases.antt =====
-- firstBase in rebuildPtrRegions of trace/src/FuncCallTrace.cpp, and the bases of the regions.
use mathlib.Core.Option.{some-injective}
use android_prybar.Base.{
  ℕ, zero, suc, ◌≡◌, refl, sym, ap, ◌∙◌, subst, ◌⊎◌, inl, inr, true, false, Option, none, some,
  List, [], ◌∷◌, ◌++◌, if◌then◌else◌, Bool-cases, Option-cases, get_elem?, from_option,
}
use android_prybar.Regions.{
  PtrRegion, MapsLine, begins_with, text_eq, Bases, find_base, region_of, rebuild_loop,
  rebuild_ptr_regions,
}
use android_prybar.Regions.FirstStart.{
  parsed, path_of, text_eq-≡, text_eq_refl, first_start, IsFirst, first_start-IsFirst,
  first_start-other, first_start-same, Occurs-first_start,
}

-- firstBase has the first start of every path of a file in the lines so far.
abbrev Tracks : List MapsLine → Bases → Type 0
Tracks before bases =
    (p : List ℕ) → begins_with b'/' p ≡ true → find_base p bases ≡ first_start p before

-- The base of a line's region, from all lines.
unfoldable base_in : List MapsLine → MapsLine → ℕ
base_in all l =
    from_option l.from_addr (λ b. b)
      (if begins_with b'/' (path_of l) then first_start (path_of l) all else none)

unnamed_other :
    (p q : List ℕ) → begins_with b'/' p ≡ true → begins_with b'/' q ≡ false → text_eq q p ≡ false
unnamed_other p q slash none_there = elim (Bool-cases (text_eq q p)) [
  | inl same ↦ absurd (cc (ap (begins_with b'/') (text_eq-≡ q p same), slash, none_there))
  | inr other ↦ other
]

module _ (before : List MapsLine) (bases : Bases) (l : MapsLine)
    (tracks : Tracks before bases) where
  tracks-other :
      (p : List ℕ)
      → begins_with b'/' p ≡ true
      → text_eq (path_of l) p ≡ false
      → find_base p bases ≡ first_start p (before ++ l ∷ [])
  tracks-other p slash other = tracks p slash ∙ sym (first_start-other p before l other)

  known-Tracks : (b : ℕ) → find_base (path_of l) bases ≡ some b → Tracks (before ++ l ∷ []) bases
  known-Tracks b found p slash = elim (Bool-cases (text_eq (path_of l) p)) [
    | inr other ↦ tracks-other p slash other
    | inl same ↦
        let at_p : find_base p bases ≡ some b =
          subst (λ q. find_base q bases ≡ some b) (text_eq-≡ _ _ same) found in
        let before_p = sym (tracks p slash) ∙ at_p in
        at_p ∙ sym (first_start-same p before [] l same ∙ rw before_p refl)
  ]

  new-Tracks :
      find_base (path_of l) bases ≡ none
      → Tracks (before ++ l ∷ []) ((path_of l, l.from_addr) ∷ bases)
  unfolding find_base
  new-Tracks missing p slash = elim (Bool-cases (text_eq (path_of l) p)) [
    | inr other ↦ rw other (tracks-other p slash other)
    | inl same ↦
        let at_p : find_base p bases ≡ none =
          subst (λ q. find_base q bases ≡ none) (text_eq-≡ _ _ same) missing in
        let before_p = sym (tracks p slash) ∙ at_p in
        rw same (sym (first_start-same p before [] l same ∙ rw before_p refl))
  ]

  region_of-Tracks : Tracks (before ++ l ∷ []) (region_of l bases).1
  unfolding region_of
  region_of-Tracks = elim (Bool-cases (begins_with b'/' (path_of l))) [
    | inr unnamed ↦
        rw unnamed λ p slash. tracks-other p slash (unnamed_other p (path_of l) slash unnamed)
    | inl named ↦ elim (Option-cases (find_base (path_of l) bases)) [
      | inl missing ↦ rw named (rw missing (new-Tracks missing))
      | inr (b, found) ↦ rw named (rw found (known-Tracks b found))
    ]
  ]

  region_of-base_in :
      (rest : List MapsLine) → (region_of l bases).0.module_base ≡ base_in (before ++ l ∷ rest) l
  unfolding region_of base_in
  region_of-base_in rest = elim (Bool-cases (begins_with b'/' (path_of l))) [
    | inr unnamed ↦ rw unnamed refl
    | inl named ↦
        let from_before = tracks (path_of l) named in
        let from_all = first_start-same (path_of l) before rest l (text_eq_refl (path_of l)) in
        elim (Option-cases (first_start (path_of l) before)) [
          | inl missing ↦
              let a = from_before ∙ missing in
              let b = rw missing at from_all in rw named (rw (a, b) refl)
          | inr (base, found) ↦
              let a = from_before ∙ found in
              let b = rw found at from_all in rw named (rw (a, b) refl)
        ]
  ]

-- Whether a path begins with a slash, and the base that goes with it.
abbrev pub HasBase : List MapsLine → MapsLine → ℕ → Type 0
HasBase all l base =
    ((begins_with b'/' (path_of l) ≡ true) × IsFirst (path_of l) all base)
    ⊎ ((begins_with b'/' (path_of l) ≡ false) × (base ≡ l.from_addr))

-- The region of the line at an index.
abbrev pub Describes : List MapsLine → List PtrRegion → ℕ → MapsLine → Type 0
Describes all rs i l =
    (r : PtrRegion) × (get_elem? rs i ≡ some r)
    × (r.start ≡ l.from_addr)
    × (r.end ≡ l.to_addr)
    × HasBase all l r.module_base

base_in-HasBase :
    (all : List MapsLine) (i : ℕ) (l : MapsLine)
    → get_elem? all i ≡ some l
    → HasBase all l (base_in all l)
unfolding base_in
base_in-HasBase all i l at = elim (Bool-cases (begins_with b'/' (path_of l))) [
  | inr unnamed ↦ rw unnamed (inr (refl, refl))
  | inl named ↦
      let (base, found) = Occurs-first_start (path_of l) all i l at refl in
      rw named (rw found (inl (refl, first_start-IsFirst (path_of l) all base found)))
]

++-snoc :
    (before : List MapsLine) (l : MapsLine) (rest : List MapsLine)
    → (before ++ l ∷ []) ++ rest ≡ before ++ l ∷ rest
++-snoc [] l rest = refl
++-snoc (x ∷ xs) l rest = ap (λ t. x ∷ t) (++-snoc xs l rest)

-- The region of the line at an index, with its base from all lines.
abbrev Makes : List MapsLine → List PtrRegion → ℕ → MapsLine → Type 0
Makes all rs i l =
    (r : PtrRegion) × (get_elem? rs i ≡ some r)
    × (r.start ≡ l.from_addr)
    × (r.end ≡ l.to_addr)
    × (r.module_base ≡ base_in all l)

region_of-start : (l : MapsLine) (bases : Bases) → (region_of l bases).0.start ≡ l.from_addr
unfolding region_of
region_of-start l bases = refl

region_of-end : (l : MapsLine) (bases : Bases) → (region_of l bases).0.end ≡ l.to_addr
unfolding region_of
region_of-end l bases = refl

no_lines : Tracks [] []
unfolding find_base first_start
no_lines p slash = refl

rebuild_loop-Makes :
    (before : List MapsLine) (ls : List (Option MapsLine)) (bases : Bases)
    → Tracks before bases
    → (i : ℕ) (l : MapsLine) → get_elem? (parsed ls) i ≡ some l
    → Makes (before ++ parsed ls) (rebuild_loop ls bases) i l
unfolding rebuild_loop
rebuild_loop-Makes before [] bases tracks i l at = absurd (cc at)
rebuild_loop-Makes before (none ∷ ls) bases tracks i l at =
    rebuild_loop-Makes before ls bases tracks i l at
rebuild_loop-Makes before (some k ∷ ls) bases tracks zero l at =
    subst (Makes (before ++ k ∷ parsed ls) (rebuild_loop (some k ∷ ls) bases) 0)
      (some-injective _ _ at)
      (
        (region_of k bases).0,
        refl,
        region_of-start k bases,
        region_of-end k bases,
        region_of-base_in before bases k tracks (parsed ls),
      )
rebuild_loop-Makes before (some k ∷ ls) bases tracks (suc i) l at =
    subst (λ all. Makes all (rebuild_loop ls (region_of k bases).1) i l)
      (++-snoc before k (parsed ls))
      (rebuild_loop-Makes (before ++ k ∷ []) ls (region_of k bases).1
        (region_of-Tracks before bases k tracks) i l at)

-- Every line with six fields has its region in the snapshot, with its bounds. If the path, without the
-- spaces before it, begins with a slash, the region's base is the start of the first line with the
-- same path; otherwise it is the line's own start.
pub rebuild_ptr_regions-HasBase :
    (ls : List (Option MapsLine)) (i : ℕ) (l : MapsLine)
    → get_elem? (parsed ls) i ≡ some l
    → Describes (parsed ls) (rebuild_ptr_regions ls) i l
unfolding rebuild_ptr_regions
rebuild_ptr_regions-HasBase ls i l at =
    let (r, there, from, to, base) = rebuild_loop-Makes [] ls [] no_lines i l at in
    (
      r,
      there,
      from,
      to,
      subst (HasBase (parsed ls) l) (sym base) (base_in-HasBase (parsed ls) i l at),
    )
