-- ===== src/Symbols/Sound.antt =====
-- The tables that SymbolTable::load of trace/Utils/SymbolTable.cpp builds and the cache keeps.
use android_prybar.Base.{
  ℕ, suc, ◌*◌, ◌/◌, ◌%◌, ◌^◌, ◌<◌, ◌≡◌, refl, subst, ◌≢◌, ◌↔◌, ◌⊎◌, inl, inr, Bool, true, not, ◌&&◌,
  ◌||◌, Option, none, some, List, [], ◌∷◌, arith, ltb, leb, ◌==◌, ◌>>=◌, ==_iff, Bool-cases, length,
  get_elem?, get_or, take, drop, All, get_elem?-some, All-get_elem?, from_option, from_option-all,
  if-all,
}
use android_prybar.Symbols.{SymEntry, SymbolTable, name_eq, Occurs, IsSorted}
use android_prybar.Symbols.Elf.{
  Phdr, phdr, Shdr, shdr, Sym, Dyn, dyn, Ehdr, ehdr, structs, pread, elfmag,
}
use android_prybar.Symbols.Load.{
  vaddr_to_offset, until_zero, functions, usable, read_section, via_sections,
  load_dynsym_via_sections, dyn_phdr, Tables, no_tables, with_entry, read_dynamic, symbol_count,
  unusable_tables, read_tables, with_dynamic, load_dynsym_via_dynamic,
}
use android_prybar.Symbols.Cache.{
  Sorter, Process, has_magic, load_bias, from_sections, read_entries, read_headers, read_file,
  finished, file_at, read_at, load,
}
use android_prybar.Symbols.Find.{get_elem?-lt}

-- An entry as the loop over the symbols makes it.
abbrev pub IsEntry : SymEntry → Type 0
IsEntry e = (0 < length e.name) × All (λ c. c ≢ 0) e.name × (e.size < 2 ^ 32) × (e.addr < 2 ^ 64)

pub record IsLoaded (t : SymbolTable) : Type 0 where
  pub marked : t.loaded ≡ true
  pub sorted : IsSorted t.entries
  pub valid : (e : SymEntry) → Occurs e t.entries → IsEntry e

until_zero-All : (cs : List ℕ) → All (λ c. c ≢ 0) (until_zero cs)
unfolding until_zero
until_zero-All [] = tt
until_zero-All (c ∷ cs) = elim (Bool-cases (c == 0)) [
  | inl e ↦ rw e tt
  | inr e ↦ rw e (ground arith, until_zero-All cs)
]

functions-IsEntry :
    (syms : List Sym) (strs : List ℕ) (bias : ℕ) → All IsEntry (functions syms strs bias)
unfolding functions
functions-IsEntry [] strs bias = tt
functions-IsEntry (s ∷ rest) strs bias =
    let name = until_zero (drop s.st_name strs) in
    let skipped =
      not (s.st_info % 16 == 2)
      || s.st_value == 0
      || leb (length strs) s.st_name
      || length name == 0 in
    elim (Bool-cases skipped) [
      | inl e ↦ rw e (functions-IsEntry rest strs bias)
      | inr e ↦ rw e (
        (ground arith, until_zero-All (drop s.st_name strs), omega arith, omega arith),
        functions-IsEntry rest strs bias,
      )
    ]

-- What holds of a result, if there is one.
abbrev pub Every {ℓ} : {A : Type ℓ} → (A → Type 0) → Option A → Type 0
Every P none = Unit {0}
Every P (some a) = P a

pub Every-bind {ℓ κ} :
    {A : Type ℓ} {B : Type κ} (P : B → Type 0) (m : Option A) (f : A → Option B)
    → ((a : A) → Every P (f a))
    → Every P (m >>= f)
Every-bind P none f h = tt
Every-bind P (some a) f h = h a

pub Every-some {ℓ} :
    {A : Type ℓ} (P : A → Type 0) (o : Option A) {a : A} → Every P o → o ≡ some a → P a
Every-some P o h e = subst (Every P) e h

pub Every-map {ℓ κ} :
    {A : Type ℓ} {B : Type κ} (P : A → Type 0) (Q : B → Type 0) (m : Option A) {f : A → B}
    → Every P m
    → ((a : A) → P a → Q (f a))
    → Every Q (do a ← m; some (f a))
Every-map P Q none h k = tt
Every-map P Q (some a) h k = k a h

-- The first of two results that is there.
first-Every {ℓ} :
    {A : Type ℓ} (P : A → Type 0) (o d : Option A)
    → Every P o
    → Every P d
    → Every P (from_option d some o)
first-Every P none d h k = k
first-Every P (some a) d h k = h

read_section-IsEntry :
    (file : List ℕ) (bias : ℕ) (s strtab : Shdr)
    → Every (All IsEntry) (read_section file bias s strtab)
unfolding read_section
read_section-IsEntry file bias s strtab = Every-bind _ (pread file s.sh_size s.sh_offset) _ λ syms.
    Every-bind _ (pread file strtab.sh_size strtab.sh_offset) _
      λ strs. functions-IsEntry _ strs bias

via_sections-IsEntry :
    (file : List ℕ) (phdrs : List Phdr) (shdrs : List Shdr) (bias : ℕ) (left : List Shdr)
    → Every (All IsEntry) (via_sections file phdrs shdrs bias left)
unfolding via_sections
via_sections-IsEntry file phdrs shdrs bias [] = tt
via_sections-IsEntry file phdrs shdrs bias (s ∷ rest) =
    from_option-all (Every (All IsEntry)) _ _ (usable phdrs shdrs s)
      (via_sections-IsEntry file phdrs shdrs bias rest) (read_section-IsEntry file bias s)

both-IsEntry :
    (o : Option (List SymEntry)) → Every (All IsEntry) o → All IsEntry (from_option [] (λ es. es) o)
both-IsEntry none h = tt
both-IsEntry (some es) h = h

read_tables-IsEntry :
    (file : List ℕ) (phdrs : List Phdr) (bias : ℕ) (t : Tables)
    → All IsEntry (read_tables file phdrs bias t)
unfolding read_tables
read_tables-IsEntry file phdrs bias t =
    if-all (All IsEntry) (unusable_tables file phdrs t) [] _ tt (
      both-IsEntry _ (
        Every-bind _ (pread file (symbol_count file phdrs t * 24) (vaddr_to_offset t.symtab phdrs))
          _
          λ syms.
            Every-bind _ (pread file t.strsz (vaddr_to_offset t.strtab phdrs)) _
              λ strs. functions-IsEntry _ strs bias))

via_dynamic-IsEntry :
    (file : List ℕ) (phdrs : List Phdr) (bias : ℕ)
    → Every (All IsEntry) (load_dynsym_via_dynamic file phdrs bias)
unfolding load_dynsym_via_dynamic with_dynamic
via_dynamic-IsEntry file phdrs bias =
    from_option-all (Every (All IsEntry)) _ _ (dyn_phdr phdrs) tt λ p.
      if-all (Every (All IsEntry)) (p.p_filesz == 0) _ _ tt (
        from_option-all (Every (All IsEntry)) _ _ (pread file p.p_filesz p.p_offset) tt λ bytes.
          Every-bind _ (read_dynamic (structs dyn 16 (p.p_filesz / 16) bytes) no_tables) _
            λ t. read_tables-IsEntry file phdrs bias t)

-- The dynamic entries are read up to DT_NULL. The loop has no other end, so it gives a result exactly
-- if one of the entries in the segment is DT_NULL.
pub read_dynamic_result :
    (ds : List Dyn) (t : Tables)
    → ((t' : Tables) × (read_dynamic ds t ≡ some t')
        × (i : ℕ) × (d : Dyn) × (get_elem? ds i ≡ some d)
        × (d.d_tag ≡ 0))
      ⊎ ((read_dynamic ds t ≡ none) × All (λ d. d.d_tag ≢ 0) ds)
unfolding read_dynamic
read_dynamic_result [] t = inr (refl, tt)
read_dynamic_result (d ∷ ds) t = elim (Bool-cases (d.d_tag == 0)) [
  | inl e ↦ inl (t, rw e, 0, d, refl, (==_iff _ 0).0 e)
  | inr e ↦ elim (read_dynamic_result ds (with_entry d t)) [
    | inl (t', r, i, n, m, z) ↦ inl (t', rw e r, suc i, n, m, z)
    | inr (r, all) ↦ inr (rw e r, (ground arith, all))
  ]
]

All-Occurs :
    (P : SymEntry → Type 0) (es : List SymEntry) → All P es → (e : SymEntry) → Occurs e es → P e
All-Occurs P es all e (i, at) = All-get_elem? P es i e all at

-- A table and the result of its load.
abbrev pub Loads : SymbolTable × Bool → Type 0
Loads r = IsLoaded r.0 × ((r.1 ≡ true) ↔ (0 < length r.0.entries))

module _ (sorter : Sorter) (process : Process) where
  length-sort : (es : List SymEntry) → 0 < length es → 0 < length (sorter.sort es)
  length-sort es h =
      let (e, at) = get_elem?-some es 0 h in
      let (i, there) = sorter.Occurs-sort e es (0, at) in
      omega (arith, get_elem?-lt i (sorter.sort es) there)

  finished-Loads : (es : List SymEntry) → All IsEntry es → Loads (finished sorter process es)
  unfolding finished
  finished-Loads es all = elim (Bool-cases (length es == 0)) [
    | inl e ↦ rw e (
      record { marked = refl; sorted = tt; valid = λ e at. absurd (cc at.1) },
      (λ h. absurd (cc h), λ h. absurd (omega (arith, h))),
    )
    | inr e ↦
        let some_entries : 0 < length es = ground arith in
        rw e (
          record {
            marked = refl;
            sorted = sorter.sort-IsSorted es;
            valid = λ f at. All-Occurs IsEntry es all f (sorter.sort-Occurs f es at);
          },
          (λ h. length-sort es some_entries, λ h. refl),
        )
  ]

  from_sections-IsEntry :
      (file : List ℕ) (h : Ehdr) (phdrs : List Phdr) (bias : ℕ)
      → Every (All IsEntry) (from_sections sorter process file h phdrs bias)
  unfolding from_sections load_dynsym_via_sections
  from_sections-IsEntry file h phdrs bias =
      if-all (Every (All IsEntry)) (ltb 0 h.e_shnum && leb 64 h.e_shentsize) _ none
        (Every-bind _ (pread file (h.e_shnum * h.e_shentsize) h.e_shoff) _ λ bytes.
          let shdrs = structs shdr 64 h.e_shnum bytes in
          via_sections-IsEntry file phdrs shdrs bias shdrs)
        tt

  read_entries-IsEntry :
      (file : List ℕ) (h : Ehdr) (phdrs : List Phdr) (bias : ℕ)
      → Every (All IsEntry) (read_entries sorter process file h phdrs bias)
  unfolding read_entries
  read_entries-IsEntry file h phdrs bias =
      first-Every (All IsEntry) (from_sections sorter process file h phdrs bias)
        (load_dynsym_via_dynamic file phdrs bias) (from_sections-IsEntry file h phdrs bias)
        (via_dynamic-IsEntry file phdrs bias)

  read_file-IsEntry :
      (so_base : ℕ) (file : List ℕ) → Every (All IsEntry) (read_file sorter process so_base file)
  unfolding read_file read_headers
  read_file-IsEntry so_base file =
      from_option-all (Every (All IsEntry)) _ _ (pread file 64 0) tt λ b.
        let h = ehdr b in
        if-all (Every (All IsEntry))
          (not (name_eq (take 4 h.e_ident) elfmag)
            || not (get_or h.e_ident 4 0 == 2)
            || h.e_phnum == 0
            || ltb 256 h.e_phnum)
          _ _ tt
          (from_option-all (Every (All IsEntry)) _ _ (pread file (h.e_phnum * 56) h.e_phoff) tt
            λ ph.
              from_option-all (Every (All IsEntry)) _ _
                (load_bias sorter process so_base (structs phdr 56 h.e_phnum ph)) tt
                λ bias. read_entries-IsEntry file h _ bias)

  read_at-IsEntry : (so_base : ℕ) → Every (All IsEntry) (read_at sorter process so_base)
  unfolding read_at
  read_at-IsEntry so_base =
      if-all (Every (All IsEntry)) (has_magic sorter process so_base) _ (some [])
        (from_option-all (Every (All IsEntry)) _ _ (file_at sorter process so_base) tt
          (read_file-IsEntry so_base))
        tt

  pub load-Every : (so_base : ℕ) → Every Loads (load sorter process so_base)
  unfolding load
  load-Every so_base =
      Every-map (All IsEntry) Loads (read_at sorter process so_base) (read_at-IsEntry so_base)
        finished-Loads

  -- A load that gives a table gives one that is marked as loaded, sorted by address and made of named
  -- entries only, and its result is true exactly if the table has an entry.
  pub load-Loads :
      (so_base : ℕ) {r : SymbolTable × Bool} → load sorter process so_base ≡ some r → Loads r
  load-Loads so_base e = Every-some Loads _ (load-Every so_base) e
