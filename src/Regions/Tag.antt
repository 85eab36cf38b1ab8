-- ===== src/Regions/Tag.antt =====
-- appendRegionTag of trace/src/FuncCallTrace.cpp: the note on a data address, with the region of the last
-- hit and a pointer to its symbols kept by the thread. The pointer is into the cache of
-- trace/Utils/SymbolTable.cpp, and reading through it is undefined once clearSymbolCache has been called.
use android_prybar.Base.{
  ℕ, ◌+◌, ◌-◌, ◌/◌, ◌%◌, ◌^◌, sym, Bool, false, ◌&&◌, Option, none, some, List, [], ◌∷◌, ◌++◌, ltb,
  leb, ◌==◌, if◌then◌else◌, ◌>>=◌, u64, length, take, bytes_of, from_option,
}
use android_prybar.Symbols.{SymEntry, SymbolTable, find_containing}
use android_prybar.Symbols.Cache.{
  Sorter, Process, Cache, find_table, clear_symbol_cache, load_symbol_table_for_so,
}
use android_prybar.Numbers.{uint64_to_hex}
use android_prybar.Regions.{
  PtrRegion, begins_with, find_ptr_region, Snapshot, Maps, ensure_regions_fresh, untagged,
}

-- g_sym_cache, and how often it has been cleared.
pub record SymCache : Type 0 where
  pub cache : Cache
  pub clears : ℕ

-- clearSymbolCache
abbrev pub cleared_cache : SymCache → SymCache
cleared_cache sc = record { cache = clear_symbol_cache sc.cache; clears = sc.clears + 1 }

-- A SymbolTable*: the element of g_sym_cache that it points to, and the clears before it was made.
pub record TablePtr : Type 0 where
  pub key : ℕ
  pub made : ℕ

-- `*p`: none if the element is gone. An element with the key that was put after a clear is another one.
unfoldable pub deref : SymCache → TablePtr → Option SymbolTable
deref sc p = if p.made == sc.clears then find_table p.key sc.cache else none

-- The thread_local variables, named without `tl_`.
pub record Tls : Type 0 where
  pub s : ℕ
  pub e : ℕ
  pub base : ℕ
  pub p : ℕ
  pub named : Bool
  pub lbl : List ℕ
  pub tbl : Option TablePtr
  pub gen : ℕ

abbrev pub no_tls : Tls
no_tls = record {
  s = 1;
  e = 0;
  base = 0;
  p = 0;
  named = false;
  lbl = [];
  tbl = none;
  gen = 0xFFFFFFFF;
}

-- `addr - base`, which can wrap.
abbrev pub minus : ℕ → ℕ → ℕ
minus addr base = u64 (addr + 2 ^ 64 - base)

-- The symbol and the offset in it.
unfoldable pub symbol_text : ℕ → SymEntry → Option (List ℕ)
symbol_text addr sym =
    let off = minus addr sym.addr in
    let with_offset = (do
      hex ← uint64_to_hex off
      some (b' ' ∷ sym.name ++ (bytes_of "+0x" ++ hex))) in
    if length sym.name == 0
    then some []
    else if off == 0
    then some (b' ' ∷ sym.name)
    else with_offset

-- The symbol in the table, if the table has one for the address.
unfoldable pub symbol_in : ℕ → SymbolTable → Option (List ℕ)
symbol_in addr t = from_option (some []) (symbol_text addr) (find_containing addr t)

-- `seg`, by the permissions.
unfoldable pub segment : ℕ → List ℕ
segment p =
    if p / 4 % 2 == 1
    then bytes_of ":code"
    else if p / 2 % 2 == 1
    then bytes_of ":rw"
    else bytes_of ":ro"

-- The text of a region without a file.
unfoldable pub anonymous : Tls → List ℕ
anonymous tl =
    (if begins_with b'[' tl.lbl then tl.lbl else bytes_of "anon")
    ++ (if tl.p / 4 % 2 == 1 then bytes_of " rwx" else [])

-- The part of appendRegionTag that prints; `none` is a read through a pointer to nothing.
unfoldable pub region_text : SymCache → ℕ → Tls → Option (List ℕ)
region_text sc addr tl =
    let pointed = λ (ptr : TablePtr). (do t ← deref sc ptr; symbol_in addr t) in
    let in_module = (do
      hex ← uint64_to_hex (minus addr tl.base)
      sym ← from_option (some []) pointed tl.tbl
      some (b' ' ∷ tl.lbl ++ (bytes_of "+0x" ++ (hex ++ (segment tl.p ++ sym))))) in
    if tl.named then in_module else some (b' ' ∷ anonymous tl)

-- What the thread keeps of a region in a module, or elsewhere.
unfoldable pub kept : ℕ → ℕ → PtrRegion → Tls
kept clears gen r = record {
  s = r.start;
  e = r.end;
  base = r.module_base;
  p = r.perms;
  named = r.named;
  lbl = take 63 r.label;
  tbl = if r.named then some (record { key = r.module_base; made = clears }) else none;
  gen = gen;
}

module _ (sorter : Sorter) (process : Process) where
  -- `tl_named ? loadSymbolTableForSo(tl_base) : nullptr`: the cache after it.
  unfoldable pub with_table : PtrRegion → SymCache → Option SymCache
  with_table r sc =
      let loading = (do
        (cache', t) ← load_symbol_table_for_so sorter process r.module_base sc.cache
        some (record sc { cache = cache' })) in
      if r.named then loading else some sc

  -- appendRegionTag where the thread's region does not serve.
  unfoldable pub tag_afresh :
      Maps → ℕ → SymCache → Snapshot → Tls → Option (SymCache × Snapshot × Tls × List ℕ)
  tag_afresh maps addr sc st tl = do
    found ← find_ptr_region addr (ensure_regions_fresh maps st).regions
    from_option (some (sc, ensure_regions_fresh maps st, tl, []))
        (λ (r : PtrRegion). (do
          sc' ← with_table r sc
          text ← region_text sc' addr (kept sc.clears maps.generation r)
          some (sc', ensure_regions_fresh maps st, kept sc.clears maps.generation r, text)))
        found

  -- appendRegionTag: the symbol cache, the snapshot, the thread's variables and the text appended.
  unfoldable pub append_region_tag :
      Maps → ℕ → SymCache → Snapshot → Tls → Option (SymCache × Snapshot × Tls × List ℕ)
  append_region_tag maps rawaddr sc st tl =
      let addr = untagged rawaddr in
      let hit = (do text ← region_text sc addr tl; some (sc, st, tl, text)) in
      if ltb addr 0x1000
      then some (sc, st, tl, [])
      else if maps.generation == tl.gen && leb tl.s addr && ltb addr tl.e
      then hit
      else tag_afresh maps addr sc st tl
