-- ===== src/Regions/Live.antt =====
-- The pointer to a symbol table that appendRegionTag of trace/src/FuncCallTrace.cpp keeps, and
-- loadSymbolTableForSo of trace/Utils/SymbolTable.cpp, which makes it.
use android_prybar.Base.{
  ℕ, ◌≡◌, refl, sym, ◌∙◌, ◌⊎◌, inl, inr, Bool, true, false, Option, none, some, List, [], ◌∷◌, ◌++◌,
  arith, ◌==◌, if◌then◌else◌, ◌>>=◌, ==_iff, Bool-cases, Option-cases, length, bytes_of,
  from_option,
}
use android_prybar.Symbols.{SymEntry, SymbolTable, find_containing}
use android_prybar.Symbols.Cache.{
  Sorter, Process, Cache, find_table, load, load_into, load_symbol_table_for_so,
}
use android_prybar.Symbols.Sound.{Every, Every-some, Every-map, Loads, load-Every}
use android_prybar.Numbers.Decode.{uint64_to_hex-Formats}
use android_prybar.Regions.{PtrRegion}
use android_prybar.Regions.Tag.{
  SymCache, TablePtr, deref, Tls, minus, symbol_text, symbol_in, segment, anonymous, region_text,
  kept, with_table,
}

symbol_text_total :
    (addr : ℕ) (sym : SymEntry) → (text : List ℕ) × (symbol_text addr sym ≡ some text)
unfolding symbol_text
symbol_text_total addr sym =
    let (hex, e, short, value) = uint64_to_hex-Formats (minus addr sym.addr) (omega arith) in
    elim (Bool-cases (length sym.name == 0)) [
      | inl b ↦ ([], rw b)
      | inr b ↦ elim (Bool-cases (minus addr sym.addr == 0)) [
        | inl c ↦ (b' ' ∷ sym.name, rw (b, c))
        | inr c ↦ (b' ' ∷ sym.name ++ (bytes_of "+0x" ++ hex), rw (b, c) (rw e))
      ]
    ]

symbols_total :
    (addr : ℕ) (found : Option SymEntry)
    → (text : List ℕ) × (from_option (some []) (symbol_text addr) found ≡ some text)
symbols_total addr none = ([], refl)
symbols_total addr (some sym) = symbol_text_total addr sym

-- The pointer is null, or what it points to is there.
abbrev pub Live : SymCache → Option TablePtr → Type 0
Live sc none = Unit {0}
Live sc (some ptr) = (t : SymbolTable) × (deref sc ptr ≡ some t) × (t.loaded ≡ true)

pointed_total :
    (sc : SymCache) (addr : ℕ) (tbl : Option TablePtr)
    → Live sc tbl
    → (text : List ℕ) × (from_option
          (some [])
          (λ (ptr : TablePtr). (do t ← deref sc ptr; symbol_in addr t))
          tbl
        ≡ some text)
unfolding symbol_in
pointed_total sc addr none live = ([], refl)
pointed_total sc addr (some ptr) (t, e, l) =
    let (text, s) = symbols_total addr (find_containing addr t) in (text, rw e s)

pub region_text_total :
    (sc : SymCache) (addr : ℕ) (tl : Tls)
    → Live sc tl.tbl
    → (text : List ℕ) × (region_text sc addr tl ≡ some text)
unfolding region_text
region_text_total sc addr tl live =
    let (hex, e, short, value) = uint64_to_hex-Formats (minus addr tl.base) (omega arith) in
    let (sym, s) = pointed_total sc addr tl.tbl live in
    let text = b' ' ∷ tl.lbl ++ (bytes_of "+0x" ++ (hex ++ (segment tl.p ++ sym))) in
    elim (Bool-cases tl.named) [
      | inl b ↦ (text, rw b (rw (e, s)))
      | inr b ↦ (b' ' ∷ anonymous tl, rw b)
    ]

deref_lem :
    (sc : SymCache) (base : ℕ)
    → deref sc (record { key = base; made = sc.clears }) ≡ find_table base sc.cache
unfolding deref
deref_lem sc base = rw ((==_iff sc.clears sc.clears).1 refl) refl

if_holds {ℓ} :
    {A : Type ℓ} (P : A → Type 0) (b : Bool) (x y : A)
    → (b ≡ true → P x)
    → P y
    → P (if b then x else y)
if_holds P true x y p q = p refl
if_holds P false x y p q = q

module _ (sorter : Sorter) (process : Process) where
  -- The cache holds the table, and it has been loaded.
  abbrev Holds : ℕ → Cache × SymbolTable → Type 0
  Holds base out = (find_table base out.0 ≡ some out.1) × (out.1.loaded ≡ true)

  load_into-Holds :
      (base : ℕ) (cache : Cache) → Every (Holds base) (load_into sorter process base cache)
  unfolding load_into find_table
  load_into-Holds base cache =
      Every-map Loads (Holds base) (load sorter process base) (load-Every sorter process base)
        (λ r loads. (rw ((==_iff base base).1 refl) refl, loads.0.marked))

  load_symbol_table_for_so-Holds :
      (base : ℕ) (cache : Cache)
      → Every (Holds base) (load_symbol_table_for_so sorter process base cache)
  unfolding load_symbol_table_for_so
  load_symbol_table_for_so-Holds base cache = elim (Option-cases (find_table base cache)) [
    | inl missing ↦ rw (missing, load_symbol_table_for_so) (load_into-Holds base cache)
    | inr (t, found) ↦
        rw (found, load_symbol_table_for_so)
          (if_holds (Every (Holds base)) t.loaded (some (cache, t)) _ (λ is_so. (found, is_so))
            (load_into-Holds base cache))
  ]

  -- A table that is there is not loaded again.
  pub with_table-Live :
      (r : PtrRegion) (sc : SymCache) (gen : ℕ)
      → Live sc (kept sc.clears gen r).tbl
      → with_table sorter process r sc ≡ some sc
  unfolding kept with_table load_symbol_table_for_so
  with_table-Live r sc gen live = elim (Bool-cases r.named) [
    | inr not_so ↦ rw not_so refl
    | inl is_so ↦
        let (t, e, l) = rw is_so at live in
        let found : find_table r.module_base sc.cache ≡ some t =
          sym (deref_lem sc r.module_base) ∙ e in
        rw is_so (rw found (rw l refl))
  ]

  -- The table of a region cannot be read, or it is there afterwards, and nothing has been cleared.
  pub with_table-cases :
      (r : PtrRegion) (sc : SymCache) (gen : ℕ)
      → ((load_symbol_table_for_so sorter process r.module_base sc.cache ≡ none)
          × (with_table sorter process r sc ≡ none))
        ⊎ ((sc' : SymCache) × (with_table sorter process r sc ≡ some sc')
            × (sc'.clears ≡ sc.clears)
            × Live sc' (kept sc.clears gen r).tbl)
  unfolding kept with_table
  with_table-cases r sc gen = elim (Bool-cases r.named) [
    | inr not_so ↦ rw not_so (inr (sc, refl, refl, tt))
    | inl is_so ↦
        elim (Option-cases (load_symbol_table_for_so sorter process r.module_base sc.cache)) [
          | inl fails ↦ inl (fails, rw is_so (rw fails refl))
          | inr (out, e) ↦
              let holds =
                Every-some (Holds r.module_base) _
                  (load_symbol_table_for_so-Holds r.module_base sc.cache) e in
              let sc' : SymCache = record sc { cache = out.0 } in
              rw is_so (
                inr (sc', rw e refl, refl, (out.1, deref_lem sc' r.module_base ∙ holds.0, holds.1)))
        ]
  ]
