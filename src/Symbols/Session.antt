-- ===== src/Symbols/Session.antt =====
-- The symbol cache of trace/Utils/SymbolTable.cpp over any sequence of lookups.
use mathlib.Core.Option.{some-injective}
use android_prybar.Base.{
  ℕ, ◌≤◌, ◌≡◌, refl, ◌∙◌, subst, inl, inr, Option, none, some, List, [], ◌∷◌, ◌==◌, ◌>>=◌, ==_iff,
  Bool-cases, Option-cases, All, if-all,
}
use android_prybar.Symbols.Cache.{
  Sorter, Process, Cache, find_table, clear_symbol_cache, load, load_into, base_of,
  get_or_load_table, lookup_symbol, lookup_symbol_exact, load_symbol_table_for_so,
  resolve_symbol_in_so,
}
use android_prybar.Symbols.{SymEntry, SymbolTable, find_containing, Occurs}
use android_prybar.Symbols.Sound.{
  IsEntry, IsLoaded, Every, Every-some, Every-map, Loads, load-Every,
}
use android_prybar.Symbols.Find.{find_containing-Nearest}

-- A call on the cache.
pub data Request : Type 0 where
  by_range by_entry : ℕ → Request
  preload : ℕ → Request
  resolved : ℕ → List ℕ → Request
  cleared : Request

-- Every table of the cache is one that a load gives.
abbrev pub AllLoaded : Cache → Type 0
AllLoaded cache = All (λ (entry : ℕ × SymbolTable). IsLoaded entry.1) cache

find_table-IsLoaded :
    (base : ℕ) (cache : Cache) {t : SymbolTable}
    → AllLoaded cache
    → find_table base cache ≡ some t
    → IsLoaded t
unfolding find_table
find_table-IsLoaded base [] all h = absurd (cc h)
find_table-IsLoaded base ((b, t) ∷ rest) all h = elim (Bool-cases (b == base)) [
  | inl e ↦ subst IsLoaded (some-injective _ _ (rw (e, find_table) at h)) all.0
  | inr e ↦ find_table-IsLoaded base rest all.1 (rw (e, find_table) at h)
]

module _ (sorter : Sorter) (process : Process) where
  unfoldable pub serve : Request → Cache → Option Cache
  serve (by_range addr) cache = do (c, e) ← lookup_symbol sorter process addr cache; some c
  serve (by_entry addr) cache = do (c, n) ← lookup_symbol_exact sorter process addr cache; some c
  serve (preload base) cache = do
    (c, t) ← load_symbol_table_for_so sorter process base cache
    some c
  serve (resolved base name) cache = do
    (c, a) ← resolve_symbol_in_so sorter process base name cache
    some c
  serve cleared cache = some (clear_symbol_cache cache)

  -- The caches that calls lead to.
  pub data Reached : Cache → Type 0 where
    start : Reached []
    served :
        (request : Request) (cache cache' : Cache)
        → Reached cache
        → serve request cache ≡ some cache'
        → Reached cache'

  abbrev Stores : ℕ → Cache × SymbolTable → Type 0
  Stores base r = AllLoaded r.0 × (find_table base r.0 ≡ some r.1)

  load_into-Stores :
      (base : ℕ) (cache : Cache)
      → AllLoaded cache
      → Every (Stores base) (load_into sorter process base cache)
  unfolding load_into find_table
  load_into-Stores base cache all =
      Every-map Loads (Stores base) (load sorter process base) (load-Every sorter process base)
        (λ r loads. ((loads.0, all), rw ((==_iff base base).1 refl)))

  -- What getOrLoadTable leaves: a table that it gives is the cache's for the address's object.
  abbrev Keeps : ℕ → Cache × Option SymbolTable → Type 0
  Keeps addr r =
      AllLoaded r.0
      × ((t : SymbolTable)
          → r.1 ≡ some t
          → (base : ℕ) × (base_of sorter process addr ≡ some base) × (find_table base r.0 ≡ some t))

  get_or_load_table-Keeps :
      (addr : ℕ) (cache : Cache)
      → AllLoaded cache
      → Every (Keeps addr) (get_or_load_table sorter process addr cache)
  unfolding get_or_load_table
  get_or_load_table-Keeps addr cache all = elim (Option-cases (base_of sorter process addr)) [
    | inl e ↦ rw (e, get_or_load_table) (all, λ t h. absurd (cc h))
    | inr (base, e) ↦ elim (Option-cases (find_table base cache)) [
      | inr (t, found) ↦ rw (e, get_or_load_table) (rw found (all, λ u h. (base, e, found ∙ h)))
      | inl missing ↦
          rw (e, get_or_load_table)
            (rw missing (
              Every-map (Stores base) (Keeps addr) (load_into sorter process base cache)
                (load_into-Stores base cache all)
                (λ r stores. (stores.0, λ t h. (base, e, stores.1 ∙ h)))))
    ]
  ]

  load_symbol_table_for_so-Stores :
      (base : ℕ) (cache : Cache)
      → AllLoaded cache
      → Every (Stores base) (load_symbol_table_for_so sorter process base cache)
  unfolding load_symbol_table_for_so
  load_symbol_table_for_so-Stores base cache all = elim (Option-cases (find_table base cache)) [
    | inl missing ↦ rw (missing, load_symbol_table_for_so) (load_into-Stores base cache all)
    | inr (t, found) ↦
        rw (found, load_symbol_table_for_so)
          (if-all (Every (Stores base)) t.loaded _ _ (all, found) (load_into-Stores base cache all))
  ]

  serve-AllLoaded :
      (request : Request) (cache : Cache) → AllLoaded cache → Every AllLoaded (serve request cache)
  unfolding serve lookup_symbol lookup_symbol_exact resolve_symbol_in_so
  serve-AllLoaded (by_range addr) cache all =
      Every-map (λ (r : Cache × Option SymEntry). AllLoaded r.0) AllLoaded
        (lookup_symbol sorter process addr cache)
        (Every-map (Keeps addr) (λ (r : Cache × Option SymEntry). AllLoaded r.0)
          (get_or_load_table sorter process addr cache) (get_or_load_table-Keeps addr cache all)
          (λ r kept. kept.0))
        (λ r kept. kept)
  serve-AllLoaded (by_entry addr) cache all =
      Every-map (λ (r : Cache × Option (List ℕ)). AllLoaded r.0) AllLoaded
        (lookup_symbol_exact sorter process addr cache)
        (Every-map (Keeps addr) (λ (r : Cache × Option (List ℕ)). AllLoaded r.0)
          (get_or_load_table sorter process addr cache) (get_or_load_table-Keeps addr cache all)
          (λ r kept. kept.0))
        (λ r kept. kept)
  serve-AllLoaded (preload base) cache all =
      Every-map (Stores base) AllLoaded (load_symbol_table_for_so sorter process base cache)
        (load_symbol_table_for_so-Stores base cache all) (λ r stores. stores.0)
  serve-AllLoaded (resolved base name) cache all =
      Every-map (λ (r : Cache × ℕ). AllLoaded r.0) AllLoaded
        (resolve_symbol_in_so sorter process base name cache)
        (if-all (Every (λ (r : Cache × ℕ). AllLoaded r.0)) (base == 0) _ _ all (
          Every-map (Stores base) (λ (r : Cache × ℕ). AllLoaded r.0)
            (load_symbol_table_for_so sorter process base cache)
            (load_symbol_table_for_so-Stores base cache all) (λ r stores. stores.0)))
        (λ r kept. kept)
  serve-AllLoaded cleared cache all = tt

  -- Every table in a cache that calls lead to is sorted by address and has only named entries.
  pub Reached-AllLoaded : (cache : Cache) → Reached cache → AllLoaded cache
  Reached-AllLoaded _ start = tt
  Reached-AllLoaded _ (served request cache cache' before e) =
      Every-some AllLoaded _ (serve-AllLoaded request cache (Reached-AllLoaded cache before)) e

  -- What a symbol is in the cache that lookupSymbol leaves.
  abbrev Answers : ℕ → Cache × Option SymEntry → Type 0
  Answers addr r =
      (e : SymEntry)
      → r.1 ≡ some e
      → (base : ℕ) × (t : SymbolTable) × (base_of sorter process addr ≡ some base)
        × (find_table base r.0 ≡ some t)
        × IsEntry e
        × Occurs e t.entries
        × (e.addr ≤ addr)
        × ((f : SymEntry) → Occurs f t.entries → f.addr ≤ addr → f.addr ≤ e.addr)

  Keeps-Answers :
      (addr : ℕ) (cache : Cache) (table : Option SymbolTable)
      → Keeps addr (cache, table)
      → Answers addr (cache, table >>= find_containing addr)
  Keeps-Answers addr cache none kept e h = absurd (cc h)
  Keeps-Answers addr cache (some t) kept e h =
      let (base, at, found) = kept.1 t refl in
      let loaded = find_table-IsLoaded base cache kept.0 found in
      let near = (find_containing-Nearest addr t loaded.sorted h).0 in
      (base, t, at, found, loaded.valid e near.0, near.0, near.1, near.2)

  -- A symbol that lookupSymbol gives in a cache that calls lead to is a named entry of the table that
  -- the cache has for the object of the address, and no entry of it is nearer at or below the address.
  pub lookup_symbol-Nearest :
      (addr : ℕ) (cache cache' : Cache) (e : SymEntry)
      → Reached cache
      → lookup_symbol sorter process addr cache ≡ some (cache', some e)
      → (base : ℕ) × (t : SymbolTable) × (base_of sorter process addr ≡ some base)
        × (find_table base cache' ≡ some t)
        × IsEntry e
        × Occurs e t.entries
        × (e.addr ≤ addr)
        × ((f : SymEntry) → Occurs f t.entries → f.addr ≤ addr → f.addr ≤ e.addr)
  unfolding lookup_symbol
  lookup_symbol-Nearest addr cache cache' e reached h =
      Every-some (Answers addr) _
        (Every-map (Keeps addr) (Answers addr) (get_or_load_table sorter process addr cache)
          (get_or_load_table-Keeps addr cache (Reached-AllLoaded cache reached))
          (λ r kept. Keeps-Answers addr r.0 r.1 kept))
        h e refl

  -- An address whose object has a table is looked up in that table, and the cache stays as it is:
  -- the second lookup of an object does not load it again.
  pub get_or_load_table-again :
      (addr : ℕ) (cache cache' : Cache) (t : SymbolTable)
      → Reached cache
      → get_or_load_table sorter process addr cache ≡ some (cache', some t)
      → get_or_load_table sorter process addr cache' ≡ some (cache', some t)
  unfolding get_or_load_table
  get_or_load_table-again addr cache cache' t reached h =
      let kept =
        Every-some (Keeps addr) _
          (get_or_load_table-Keeps addr cache (Reached-AllLoaded cache reached)) h in
      let (base, at, found) = kept.1 t refl in rw (at, get_or_load_table) (rw found)
