-- ===== src/Regions/Others.antt =====
-- What a thread keeps in appendRegionTag of trace/src/FuncCallTrace.cpp while other threads call
-- trace/Utils/SymbolTable.cpp.
use android_prybar.Base.{
  ℕ, ◌≡◌, refl, sym, ap, ◌∙◌, subst, ◌≢◌, inl, inr, true, false, Option, none, some, List, ◌==◌,
  if◌then◌else◌, ==_iff, Bool-cases, Option-cases, if-all,
}
use android_prybar.Symbols.{SymbolTable}
use android_prybar.Symbols.Cache.{
  Sorter, Process, Cache, find_table, load, load_into, base_of, get_or_load_table, lookup_symbol,
  lookup_symbol_exact, load_symbol_table_for_so, resolve_symbol_in_so,
}
use android_prybar.Symbols.Session.{Request, by_range, by_entry, preload, resolved, cleared, serve}
use android_prybar.Regions.{Snapshot, Maps, ensure_regions_fresh}
use android_prybar.Regions.Tag.{SymCache, TablePtr, deref, Tls}
use android_prybar.Regions.Cached.{Agrees, ensure-Agrees}
use android_prybar.Symbols.Sound.{Every, Every-some, Every-map, Loads, load-Every}
use android_prybar.Regions.Live.{Live}

-- The cache has the table for the key.
abbrev Has {ℓ} : {A : Type ℓ} → ℕ → SymbolTable → Cache × A → Type 0
Has key t r = find_table key r.0 ≡ some t

module _ (sorter : Sorter) (process : Process) (key : ℕ) (t : SymbolTable)
    (loaded : t.loaded ≡ true) (cache : Cache) (found : find_table key cache ≡ some t) where
  missing-other : (base : ℕ) → find_table base cache ≡ none → (base == key) ≡ false
  missing-other base missing = elim (Bool-cases (base == key)) [
    | inr other ↦ other
    | inl same ↦
        let e = (==_iff base key).0 same in
        absurd (cc (ap (λ b. find_table b cache) e, missing, found))
  ]

  load_into-Has :
      (base : ℕ) → (base == key) ≡ false → Every (Has key t) (load_into sorter process base cache)
  unfolding load_into find_table
  load_into-Has base other =
      Every-map Loads (Has key t) (load sorter process base) (load-Every sorter process base)
        (λ r loads. rw other found)

  get_or_load_table-Has :
      (addr : ℕ) → Every (Has key t) (get_or_load_table sorter process addr cache)
  unfolding get_or_load_table
  get_or_load_table-Has addr = elim (Option-cases (base_of sorter process addr)) [
    | inl e ↦ rw (e, get_or_load_table) found
    | inr (base, e) ↦ elim (Option-cases (find_table base cache)) [
      | inr (u, there) ↦ rw (e, get_or_load_table) (rw there found)
      | inl missing ↦
          rw (e, get_or_load_table)
            (rw missing (
              Every-map (Has key t) (Has key t) (load_into sorter process base cache)
                (load_into-Has base (missing-other base missing)) (λ r has. has)))
    ]
  ]

  abbrev again : ℕ → Option (Cache × SymbolTable)
  again base = load_into sorter process base cache

  load_symbol_table_for_so-Has :
      (base : ℕ) → Every (Has key t) (load_symbol_table_for_so sorter process base cache)
  unfolding load_symbol_table_for_so
  load_symbol_table_for_so-Has base = elim (Bool-cases (base == key)) [
    | inl same ↦
        let e = (==_iff base key).0 same in
        let there : find_table base cache ≡ some t = ap (λ b. find_table b cache) e ∙ found in
        rw (there, load_symbol_table_for_so)
          (subst (λ b. Every (Has key t) (if b then some (cache, t) else again base)) (sym loaded)
            found)
    | inr other ↦ elim (Option-cases (find_table base cache)) [
      | inl missing ↦ rw (missing, load_symbol_table_for_so) (load_into-Has base other)
      | inr (u, there) ↦
          rw (there, load_symbol_table_for_so)
            (if-all (Every (Has key t)) u.loaded _ _ found (load_into-Has base other))
    ]
  ]

  lookup_symbol-Has : (addr : ℕ) → Every (Has key t) (lookup_symbol sorter process addr cache)
  unfolding lookup_symbol
  lookup_symbol-Has addr =
      Every-map (Has key t) (Has key t) (get_or_load_table sorter process addr cache)
        (get_or_load_table-Has addr) (λ r has. has)

  lookup_symbol_exact-Has :
      (addr : ℕ) → Every (Has key t) (lookup_symbol_exact sorter process addr cache)
  unfolding lookup_symbol_exact
  lookup_symbol_exact-Has addr =
      Every-map (Has key t) (Has key t) (get_or_load_table sorter process addr cache)
        (get_or_load_table-Has addr) (λ r has. has)

  resolve_symbol_in_so-Has :
      (base : ℕ) (name : List ℕ)
      → Every (Has key t) (resolve_symbol_in_so sorter process base name cache)
  unfolding resolve_symbol_in_so
  resolve_symbol_in_so-Has base name = if-all (Every (Has key t)) (base == 0) _ _ found (
      Every-map (Has key t) (Has key t) (load_symbol_table_for_so sorter process base cache)
        (load_symbol_table_for_so-Has base) (λ r has. has))

  serve-Has :
      (request : Request)
      → request ≢ cleared
      → Every (λ c. find_table key c ≡ some t) (serve sorter process request cache)
  unfolding serve
  serve-Has (by_range addr) other =
      Every-map (Has key t) (λ c. find_table key c ≡ some t)
        (lookup_symbol sorter process addr cache) (lookup_symbol-Has addr) (λ r has. has)
  serve-Has (by_entry addr) other =
      Every-map (Has key t) (λ c. find_table key c ≡ some t)
        (lookup_symbol_exact sorter process addr cache) (lookup_symbol_exact-Has addr)
        (λ r has. has)
  serve-Has (preload base) other =
      Every-map (Has key t) (λ c. find_table key c ≡ some t)
        (load_symbol_table_for_so sorter process base cache) (load_symbol_table_for_so-Has base)
        (λ r has. has)
  serve-Has (resolved base name) other =
      Every-map (Has key t) (λ c. find_table key c ≡ some t)
        (resolve_symbol_in_so sorter process base name cache) (resolve_symbol_in_so-Has base name)
        (λ r has. has)
  serve-Has cleared other = absurd (other refl)

deref-some :
    (sc : SymCache) (ptr : TablePtr) (t : SymbolTable)
    → deref sc ptr ≡ some t
    → (ptr.made ≡ sc.clears) × (find_table ptr.key sc.cache ≡ some t)
unfolding deref
deref-some sc ptr t e = elim (Bool-cases (ptr.made == sc.clears)) [
  | inl same ↦ ((==_iff _ _).0 same, rw (same, deref) at e)
  | inr other ↦ let bad : none ≡ some t = rw (other, deref) at e in absurd (cc bad)
]

some-deref :
    (sc : SymCache) (ptr : TablePtr) (t : SymbolTable)
    → ptr.made ≡ sc.clears
    → find_table ptr.key sc.cache ≡ some t
    → deref sc ptr ≡ some t
unfolding deref
some-deref sc ptr t made e = rw ((==_iff _ _).1 made) e

serve-Live :
    (sorter : Sorter) (process : Process) (request : Request) (sc : SymCache) (cache' : Cache)
    (tbl : Option TablePtr)
    → request ≢ cleared
    → serve sorter process request sc.cache ≡ some cache'
    → Live sc tbl
    → Live (record sc { cache = cache' }) tbl
serve-Live sorter process request sc cache' none other e live = tt
serve-Live sorter process request sc cache' (some ptr) other e (t, there, loaded) =
    let (made, found) = deref-some sc ptr t there in
    let kept_there =
      Every-some (λ c. find_table ptr.key c ≡ some t) _
        (serve-Has sorter process ptr.key t loaded sc.cache found request other) e in
    (t, some-deref (record sc { cache = cache' }) ptr t made kept_there, loaded)

-- While another thread looks up or loads symbols, in any way but by clearSymbolCache, and the snapshot is
-- made fresh, what a thread keeps goes on to agree with the snapshot and the symbol cache.
pub serve-Agrees :
    (sorter : Sorter) (process : Process) (maps : Maps) (request : Request) (sc : SymCache)
    (cache' : Cache) (st : Snapshot) (tl : Tls)
    → request ≢ cleared
    → serve sorter process request sc.cache ≡ some cache'
    → Agrees maps sc st tl
    → Agrees maps (record sc { cache = cache' }) (ensure_regions_fresh maps st) tl
serve-Agrees sorter process maps request sc cache' st tl other e agrees same some_region =
    let (built, region, live) = ensure-Agrees maps sc st tl agrees same some_region in
    (built, region, serve-Live sorter process request sc cache' tl.tbl other e live)
