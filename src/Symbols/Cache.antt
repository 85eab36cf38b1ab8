-- ===== src/Symbols/Cache.antt =====
-- SymbolTable::load and the tables by base address of trace/Utils/SymbolTable.cpp. The dynamic linker,
-- the file system and the memory are parameters.
use android_prybar.Base.{
  ℕ, ◌+◌, ◌-◌, ◌*◌, ◌^◌, Bool, true, false, not, ◌&&◌, ◌||◌, Option, none, some, List, [], ◌∷◌, ltb,
  leb, ◌==◌, if◌then◌else◌, ◌>>=◌, u64, length, get_or, take, from_option,
}
use android_prybar.Symbols.{
  SymEntry, SymbolTable, find_exact, name_eq, find_addr_by_name, find_containing, Occurs, IsSorted,
}
use android_prybar.Symbols.Elf.{Phdr, phdr, shdr, Ehdr, ehdr, structs, pread, elfmag}
use android_prybar.Symbols.Load.{load_dynsym_via_sections, load_dynsym_via_dynamic}

-- std::sort by address: the order of entries with one address is the implementation's.
pub record Sorter : Type 0 where
  pub sort : List SymEntry → List SymEntry
  pub sort-IsSorted : (es : List SymEntry) → IsSorted (sort es)
  pub sort-Occurs : (e : SymEntry) (es : List SymEntry) → Occurs e (sort es) → Occurs e es
  pub Occurs-sort : (e : SymEntry) (es : List SymEntry) → Occurs e es → Occurs e (sort es)

-- What load and the lookups ask of the process: the bytes at an address, dladdr (the base and the
-- path), and the content of a file that can be opened.
pub record Process : Type 0 where
  pub memory : ℕ → ℕ → List ℕ
  pub dladdr : ℕ → Option (ℕ × Option (List ℕ))
  pub open_file : List ℕ → Option (List ℕ)

-- g_sym_cache
abbrev pub Cache : Type 0
Cache = List (ℕ × SymbolTable)

unfoldable pub find_table : ℕ → Cache → Option SymbolTable
find_table base [] = none
find_table base ((b, t) ∷ rest) = if b == base then some t else find_table base rest

-- clearSymbolCache
abbrev pub clear_symbol_cache : Cache → Cache
clear_symbol_cache cache = []

module _ (sorter : Sorter) (process : Process) where
  -- `memcmp(base, ELFMAG, SELFMAG) == 0`
  unfoldable pub has_magic : ℕ → Bool
  has_magic base = name_eq (process.memory base 4) elfmag

  -- `runtime_base - p_vaddr` of the first PT_LOAD.
  unfoldable pub load_bias : ℕ → List Phdr → Option ℕ
  load_bias so_base [] = none
  load_bias so_base (p ∷ ps) =
      if p.p_type == 1 then some (u64 (so_base + 2 ^ 64 - p.p_vaddr)) else load_bias so_base ps

  -- The section headers' part of load.
  unfoldable pub from_sections : List ℕ → Ehdr → List Phdr → ℕ → Option (List SymEntry)
  from_sections file h phdrs bias =
      let body = (do
        bytes ← pread file (h.e_shnum * h.e_shentsize) h.e_shoff
        load_dynsym_via_sections file phdrs (structs shdr 64 h.e_shnum bytes) bias) in
      if ltb 0 h.e_shnum && leb 64 h.e_shentsize then body else none

  -- The part of load between the program headers and the sort.
  unfoldable pub read_entries : List ℕ → Ehdr → List Phdr → ℕ → Option (List SymEntry)
  read_entries file h phdrs bias =
      from_option (load_dynsym_via_dynamic file phdrs bias) some (from_sections file h phdrs bias)

  -- load on an opened file after the ELF header.
  unfoldable pub read_headers : ℕ → List ℕ → Ehdr → Option (List SymEntry)
  read_headers so_base file h =
      let with_phdrs = λ (ph : List ℕ).
        let phdrs = structs phdr 56 h.e_phnum ph in
        from_option (some []) (read_entries file h phdrs) (load_bias so_base phdrs) in
      if not (name_eq (take 4 h.e_ident) elfmag)
        || not (get_or h.e_ident 4 0 == 2)
        || h.e_phnum == 0
        || ltb 256 h.e_phnum
      then some []
      else from_option (some []) with_phdrs (pread file (h.e_phnum * 56) h.e_phoff)

  -- load on an opened file: the entries before the sort, none of them for a failure.
  unfoldable pub read_file : ℕ → List ℕ → Option (List SymEntry)
  read_file so_base file =
      from_option (some []) (λ b. read_headers so_base file (ehdr b)) (pread file 64 0)

  -- load after its entries are read: the table and the result.
  unfoldable pub finished : List SymEntry → SymbolTable × Bool
  finished es =
      if length es == 0
      then (record { entries = []; loaded = true }, false)
      else (record { entries = sorter.sort es; loaded = true }, true)

  -- The file of the object at an address, if dladdr knows it and it can be opened.
  unfoldable pub file_at : ℕ → Option (List ℕ)
  file_at so_base = do (base, path) ← process.dladdr so_base; p ← path; process.open_file p

  -- load up to the sort.
  unfoldable pub read_at : ℕ → Option (List SymEntry)
  read_at so_base =
      if has_magic so_base
      then from_option (some []) (read_file so_base) (file_at so_base)
      else some []

  -- SymbolTable::load: the table after it and its result. The outer `none` is a read past a dynamic
  -- table.
  unfoldable pub load : ℕ → Option (SymbolTable × Bool)
  load so_base = do read ← read_at so_base; some (finished read)

  -- `g_sym_cache[base]` after its load.
  unfoldable pub load_into : ℕ → Cache → Option (Cache × SymbolTable)
  load_into base cache = do (t, ok) ← load base; some ((base, t) ∷ cache, t)

  -- The base that getOrLoadTable looks up for an address: dladdr's, if it has a path and the ELF magic.
  unfoldable pub base_of : ℕ → Option ℕ
  base_of addr = do
    (base, path) ← process.dladdr addr
    p ← path
    if base == 0 || not (has_magic base) then none else some base

  -- getOrLoadTable: the cache after it, and the table or null.
  unfoldable pub get_or_load_table : ℕ → Cache → Option (Cache × Option SymbolTable)
  get_or_load_table addr cache =
      let missing = λ (base : ℕ). (do (cache', t) ← load_into base cache; some (cache', some t)) in
      let at_base = λ (base : ℕ).
        from_option (missing base) (λ t. some (cache, some t)) (find_table base cache) in
      from_option (some (cache, none)) at_base (base_of addr)

  -- lookupSymbol
  unfoldable pub lookup_symbol : ℕ → Cache → Option (Cache × Option SymEntry)
  lookup_symbol addr cache = do
    (cache', table) ← get_or_load_table addr cache
    some (cache', table >>= find_containing addr)

  -- lookupSymbolExact
  unfoldable pub lookup_symbol_exact : ℕ → Cache → Option (Cache × Option (List ℕ))
  lookup_symbol_exact addr cache = do
    (cache', table) ← get_or_load_table addr cache
    some (cache', table >>= find_exact addr)

  -- loadSymbolTableForSo
  unfoldable pub load_symbol_table_for_so : ℕ → Cache → Option (Cache × SymbolTable)
  load_symbol_table_for_so base cache =
      let again = load_into base cache in
      from_option again (λ t. if t.loaded then some (cache, t) else again) (find_table base cache)

  -- resolveSymbolInSo, from the base that dl_iterate_phdr finds, 0 for none.
  unfoldable pub resolve_symbol_in_so : ℕ → List ℕ → Cache → Option (Cache × ℕ)
  resolve_symbol_in_so base sym_name cache = if base == 0 then some (cache, 0) else (do
    (cache', t) ← load_symbol_table_for_so base cache
    some (cache', if length t.entries == 0 then 0 else find_addr_by_name sym_name t))
