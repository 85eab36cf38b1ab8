-- ===== src/Regions/Cached.antt =====
-- What a thread keeps in appendRegionTag of trace/src/FuncCallTrace.cpp, the region and the pointer to its
-- symbols, against a search of the fresh snapshot with the table loaded afresh.
use android_prybar.Base.{
  ℕ, ◌≤◌, ◌<◌, ◌≡◌, refl, sym, ap, ◌∙◌, subst, ◌≢◌, ◌⊎◌, inl, inr, true, false, ◌&&◌, Option, none,
  some, List, [], arith, ltb, leb, ◌==◌, if◌then◌else◌, ◌>>=◌, ==_iff, Bool-cases, length,
  get_elem?, from_option,
}
use android_prybar.Symbols.Cache.{Sorter, Process, load_symbol_table_for_so}
use android_prybar.Regions.{
  PtrRegion, find_ptr_region, Snapshot, Maps, ensure_regions_fresh, untagged,
}
use android_prybar.Regions.Search.{
  IsAscending, Contains, get_elem?-lt, find_ptr_region-Finds, Contains-unique,
}
use android_prybar.Regions.Live.{Live, region_text_total, with_table-Live, with_table-cases}
use android_prybar.Regions.Tag.{
  SymCache, Tls, region_text, kept, with_table, tag_afresh, append_region_tag,
}

-- The search finds a region that is known to contain the address.
find_ptr_region-known :
    (addr : ℕ) (rs : List PtrRegion)
    → IsAscending rs
    → (i : ℕ) (r : PtrRegion) → get_elem? rs i ≡ some r
    → Contains addr r
    → find_ptr_region addr rs ≡ some (some r)
find_ptr_region-known addr rs up i r at c = elim (find_ptr_region-Finds addr rs up) [
  | inl (j, q, here, d, e) ↦
      e ∙ ap (λ (x : PtrRegion). some (some x)) (Contains-unique addr rs up j i q r here at d c)
  | inr (e, nothing) ↦ absurd (nothing i r at c)
]

module _ (sorter : Sorter) (process : Process) where
  -- The note without what a thread keeps: the region of the address in the fresh snapshot, if it has
  -- one, with the table that loadSymbolTableForSo gives.
  unfoldable pub direct_tag : Maps → ℕ → SymCache → Snapshot → Option (SymCache × List ℕ)
  direct_tag maps rawaddr sc st =
      let addr = untagged rawaddr in
      let found = (do
        r ← find_ptr_region addr (ensure_regions_fresh maps st).regions
        from_option (some (sc, []))
            (λ (r : PtrRegion). (do
              sc' ← with_table sorter process r sc
              text ← region_text sc' addr (kept sc.clears maps.generation r)
              some (sc', text)))
            r) in
      if ltb addr 0x1000 then some (sc, []) else found

module _ (maps : Maps) where
  -- If the thread's variables are of this generation and hold a region, then the snapshot is of this
  -- generation too and has that region, and the symbol cache has the table that is pointed to.
  abbrev pub Agrees : SymCache → Snapshot → Tls → Type 0
  Agrees sc st tl =
      maps.generation ≡ tl.gen
      → tl.s < tl.e
      → (st.built_gen ≡ maps.generation)
        × ((i : ℕ) × (r : PtrRegion) × (get_elem? st.regions i ≡ some r)
            × (tl ≡ kept sc.clears maps.generation r))
        × Live sc tl.tbl

  ensure-built : (st : Snapshot) → (ensure_regions_fresh maps st).built_gen ≡ maps.generation
  unfolding ensure_regions_fresh
  ensure-built st = ground arith

  -- A snapshot of this generation with a region is left alone.
  ensure-fresh :
      (st : Snapshot) (i : ℕ) (r : PtrRegion)
      → st.built_gen ≡ maps.generation
      → get_elem? st.regions i ≡ some r
      → ensure_regions_fresh maps st ≡ st
  unfolding ensure_regions_fresh
  ensure-fresh st i r e at =
      let same : (st.built_gen == maps.generation) ≡ true = (==_iff _ _).1 e in
      let some_region : (length st.regions == 0) ≡ false =
        ground (arith, get_elem?-lt i st.regions at) in
      rw (some_region, same)

  -- Another thread's refresh keeps the agreement.
  pub ensure-Agrees :
      (sc : SymCache) (st : Snapshot) (tl : Tls)
      → Agrees sc st tl
      → Agrees sc (ensure_regions_fresh maps st) tl
  ensure-Agrees sc st tl agrees same some_region =
      let (built, (i, r, at, e), live) = agrees same some_region in
      rw (ensure-fresh st i r built at) (built, (i, r, at, e), live)

  -- Once the maps have changed, any variables agree.
  pub Agrees-changed :
      (sc : SymCache) (st : Snapshot) (tl : Tls) → maps.generation ≢ tl.gen → Agrees sc st tl
  Agrees-changed sc st tl changed same = absurd (changed same)

  kept-Contains :
      (addr clears : ℕ) (r : PtrRegion)
      → ((kept clears maps.generation r).s ≤ addr) × (addr < (kept clears maps.generation r).e)
      → Contains addr r
  unfolding kept
  kept-Contains addr clears r h = h

module _ (sorter : Sorter) (process : Process) (maps : Maps) (sc : SymCache) (st : Snapshot)
    (rawaddr : ℕ) where
  -- Both fail, since the table of the region of the address cannot be read, or both give the same text
  -- and the same symbol cache, and what is kept agrees.
  abbrev pub Tags :
      Option (SymCache × Snapshot × Tls × List ℕ) → Option (SymCache × List ℕ) → Type 0
  Tags o d =
      ((i : ℕ) × (r : PtrRegion) × (get_elem? (ensure_regions_fresh maps st).regions i ≡ some r)
        × Contains (untagged rawaddr) r
        × (load_symbol_table_for_so sorter process r.module_base sc.cache ≡ none)
        × (o ≡ none)
        × (d ≡ none))
      ⊎ ((sc' : SymCache) × (st' : Snapshot) × (tl' : Tls) × (text : List ℕ) × (o
            ≡ some (sc', st', tl', text))
          × (d ≡ some (sc', text))
          × Agrees maps sc' st' tl')

  direct_tag-low :
      ltb (untagged rawaddr) 0x1000 ≡ true
      → direct_tag sorter process maps rawaddr sc st ≡ some (sc, [])
  unfolding direct_tag
  direct_tag-low low = rw low refl

  module _ (high : ltb (untagged rawaddr) 0x1000 ≡ false) where
    direct_tag-some :
        (r : PtrRegion)
        → find_ptr_region (untagged rawaddr) (ensure_regions_fresh maps st).regions ≡ some (some r)
        → direct_tag sorter process maps rawaddr sc st ≡ (
            with_table sorter process r sc >>= λ sc'.
            region_text sc' (untagged rawaddr) (kept sc.clears maps.generation r) >>= λ text.
            some (sc', text))
    unfolding direct_tag
    direct_tag-some r e = rw high (rw e refl)

    direct_tag-none :
        find_ptr_region (untagged rawaddr) (ensure_regions_fresh maps st).regions ≡ some none
        → direct_tag sorter process maps rawaddr sc st ≡ some (sc, [])
    unfolding direct_tag
    direct_tag-none e = rw high (rw e refl)

    tag_afresh-Tags :
        (tl : Tls)
        → Agrees maps sc st tl
        → IsAscending (ensure_regions_fresh maps st).regions
        → Tags
            (tag_afresh sorter process maps (untagged rawaddr) sc st tl)
            (direct_tag sorter process maps rawaddr sc st)
    unfolding tag_afresh
    tag_afresh-Tags tl agrees up =
        let st' = ensure_regions_fresh maps st in
        elim (find_ptr_region-Finds (untagged rawaddr) st'.regions up) [
          | inr (e, nothing) ↦
              inr
                (sc, st', tl, [], rw e refl, direct_tag-none e, ensure-Agrees maps sc st tl agrees)
          | inl (i, r, at, c, e) ↦ elim (with_table-cases sorter process r sc maps.generation) [
            | inl (fails, w) ↦
                inl (i, r, at, c, fails, rw e (rw w refl), direct_tag-some r e ∙ rw w refl)
            | inr (sc', w, same, live) ↦
                let tl' = kept sc.clears maps.generation r in
                let (text, t) = region_text_total sc' (untagged rawaddr) tl' live in
                inr (
                  sc',
                  st',
                  tl',
                  text,
                  rw e (rw w (rw t refl)),
                  direct_tag-some r e ∙ rw w (rw t refl),
                  λ gen some_region. (
                    ensure-built maps st,
                    (i, r, at, ap (λ c. kept c maps.generation r) (sym same)),
                    live,
                  ),
                )
          ]
        ]

    hit-Tags :
        (tl : Tls)
        → Agrees maps sc st tl
        → IsAscending (ensure_regions_fresh maps st).regions
        → maps.generation ≡ tl.gen
        → tl.s ≤ untagged rawaddr
        → untagged rawaddr < tl.e
        → Tags
            (region_text sc (untagged rawaddr) tl >>= λ text. some (sc, st, tl, text))
            (direct_tag sorter process maps rawaddr sc st)
    hit-Tags tl agrees up same low up_to =
        let addr = untagged rawaddr in
        let (built, (i, r, at, e), live) = agrees same (omega (arith, low, up_to)) in
        let fresh = ensure-fresh maps st i r built at in
        let inside =
          kept-Contains maps addr sc.clears r
            (subst (λ t. (t.s ≤ addr) × (addr < t.e)) e (low, up_to)) in
        let at' : get_elem? (ensure_regions_fresh maps st).regions i ≡ some r = rw fresh at in
        let found =
          find_ptr_region-known addr (ensure_regions_fresh maps st).regions up i r at' inside in
        let w =
          with_table-Live sorter process r sc maps.generation (subst (λ t. Live sc t.tbl) e live) in
        let (text, t) = region_text_total sc addr tl live in
        let t' = ap (region_text sc addr) (sym e) ∙ t in
        inr (sc, st, tl, text, rw t refl, direct_tag-some r found ∙ rw w (rw t' refl), agrees)

  pub append_region_tag-direct :
      (tl : Tls)
      → Agrees maps sc st tl
      → IsAscending (ensure_regions_fresh maps st).regions
      → Tags
          (append_region_tag sorter process maps rawaddr sc st tl)
          (direct_tag sorter process maps rawaddr sc st)
  unfolding append_region_tag
  append_region_tag-direct tl agrees up = elim (Bool-cases (ltb (untagged rawaddr) 0x1000)) [
    | inl low ↦ inr (sc, st, tl, [], rw low refl, direct_tag-low low, agrees)
    | inr high ↦
        elim (Bool-cases (
          maps.generation == tl.gen
          && leb tl.s (untagged rawaddr)
          && ltb (untagged rawaddr) tl.e)) [
            | inr miss ↦ rw (high, miss) (tag_afresh-Tags high tl agrees up)
            | inl hit ↦
                rw (high, hit)
                  (hit-Tags high tl agrees up (ground arith) (ground arith) (ground arith))
          ]
  ]
