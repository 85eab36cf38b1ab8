-- ===== src/Symbols/Load.antt =====
-- SymbolTable::load of trace/Utils/SymbolTable.cpp: the function symbols of a file.
use android_prybar.Base.{
  ℕ, ◌+◌, ◌-◌, ◌*◌, ◌/◌, ◌%◌, ◌^◌, Bool, false, not, ◌&&◌, ◌||◌, Option, none, some, List, [], ◌∷◌,
  ltb, leb, ◌==◌, if◌then◌else◌, ◌>>=◌, u32, u64, length, get_elem?, drop, from_option,
}
use android_prybar.Symbols.{SymEntry}
use android_prybar.Symbols.Elf.{field, Phdr, Shdr, Sym, symbol, Dyn, dyn, structs, pread}

-- vaddr_to_offset; -1 is its bit pattern.
unfoldable pub vaddr_to_offset : ℕ → List Phdr → ℕ
vaddr_to_offset vaddr [] = 2 ^ 64 - 1
vaddr_to_offset vaddr (p ∷ ps) =
    if p.p_type == 1 && leb p.p_vaddr vaddr && ltb vaddr (u64 (p.p_vaddr + p.p_filesz))
    then u64 (vaddr - p.p_vaddr + p.p_offset)
    else vaddr_to_offset vaddr ps

-- The loop of section_in_pt_load.
unfoldable pub in_some_load : Shdr → List Phdr → Bool
in_some_load s [] = false
in_some_load s (p ∷ ps) =
    p.p_type == 1
      && leb p.p_vaddr s.sh_addr
      && leb (u64 (s.sh_addr + s.sh_size)) (u64 (p.p_vaddr + p.p_memsz))
    || in_some_load s ps

-- section_in_pt_load
unfoldable pub section_in_pt_load : Shdr → List Phdr → Bool
section_in_pt_load s phdrs = if s.sh_size == 0 then false else in_some_load s phdrs

-- The bytes up to the first zero, at most all of them.
unfoldable pub until_zero : List ℕ → List ℕ
until_zero [] = []
until_zero (c ∷ cs) = if c == 0 then [] else c ∷ until_zero cs

-- The loop over the symbols, which is the same in both readers.
unfoldable pub functions : List Sym → List ℕ → ℕ → List SymEntry
functions [] strs load_bias = []
functions (s ∷ rest) strs load_bias =
    let name = until_zero (drop s.st_name strs) in
    let others = functions rest strs load_bias in
    if not (s.st_info % 16 == 2)
      || s.st_value == 0
      || leb (length strs) s.st_name
      || length name == 0
    then others
    else record { addr = u64 (s.st_value + load_bias); size = u32 s.st_size; name = name } ∷ others

-- A section that load_dynsym_via_sections does not skip, with its string table.
unfoldable pub usable : List Phdr → List Shdr → Shdr → Option Shdr
usable phdrs shdrs s =
    let nsyms = u32 (s.sh_size / 24) in
    let checked = (do
      strtab ← get_elem? shdrs s.sh_link
      if strtab.sh_size == 0 || nsyms == 0 || ltb 500000 nsyms then none else some strtab) in
    if not (s.sh_type == 11) || s.sh_flags / 2 % 2 == 0 || not (section_in_pt_load s phdrs)
    then none
    else checked

-- The first section that is used: its entries, or `none` for false.
unfoldable pub read_section : List ℕ → ℕ → Shdr → Shdr → Option (List SymEntry)
read_section file load_bias s strtab = do
  syms ← pread file s.sh_size s.sh_offset
  strs ← pread file strtab.sh_size strtab.sh_offset
  some (functions (structs symbol 24 (u32 (s.sh_size / 24)) syms) strs load_bias)

-- The loop of load_dynsym_via_sections over the sections left.
unfoldable pub via_sections :
    List ℕ → List Phdr → List Shdr → ℕ → List Shdr → Option (List SymEntry)
via_sections file phdrs shdrs load_bias [] = none
via_sections file phdrs shdrs load_bias (s ∷ rest) =
    let next = via_sections file phdrs shdrs load_bias rest in
    from_option next (read_section file load_bias s) (usable phdrs shdrs s)

-- load_dynsym_via_sections
unfoldable pub load_dynsym_via_sections :
    List ℕ → List Phdr → List Shdr → ℕ → Option (List SymEntry)
load_dynsym_via_sections file phdrs shdrs load_bias = via_sections file phdrs shdrs load_bias shdrs

-- The first PT_DYNAMIC, or null.
unfoldable pub dyn_phdr : List Phdr → Option Phdr
dyn_phdr [] = none
dyn_phdr (p ∷ ps) = if p.p_type == 2 then some p else dyn_phdr ps

-- What the loop over the dynamic entries finds.
pub record Tables : Type 0 where
  pub symtab : ℕ
  pub strtab : ℕ
  pub strsz : ℕ
  pub hash : ℕ

abbrev pub no_tables : Tables
no_tables = record { symtab = 0; strtab = 0; strsz = 0; hash = 0 }

unfoldable pub with_entry : Dyn → Tables → Tables
with_entry d t =
    if d.d_tag == 6
    then record t { symtab = d.d_val }
    else if d.d_tag == 5
    then record t { strtab = d.d_val }
    else if d.d_tag == 10
    then record t { strsz = d.d_val }
    else if d.d_tag == 4
    then record t { hash = d.d_val }
    else t

-- The loop up to DT_NULL; `none` is a read past the entries.
unfoldable pub read_dynamic : List Dyn → Tables → Option Tables
read_dynamic [] t = none
read_dynamic (d ∷ ds) t = if d.d_tag == 0 then some t else read_dynamic ds (with_entry d t)

-- `off < 0` for an off_t.
abbrev pub is_negative : ℕ → Bool
is_negative off = leb (2 ^ 63) off

-- `nsyms`: nchain of DT_HASH, else what fits between the two tables.
unfoldable pub symbol_count : List ℕ → List Phdr → Tables → ℕ
symbol_count file phdrs t =
    let h_off = vaddr_to_offset t.hash phdrs in
    let chained =
      if t.hash == 0 || is_negative h_off
      then 0
      else from_option 0 (field 4 4) (pread file 8 h_off) in
    if chained == 0 && ltb t.symtab t.strtab then u32 ((t.strtab - t.symtab) / 24) else chained

-- The tests of load_dynsym_via_dynamic between the dynamic entries and the reads.
unfoldable pub unusable_tables : List ℕ → List Phdr → Tables → Bool
unusable_tables file phdrs t =
    let nsyms = symbol_count file phdrs t in
    t.symtab == 0
    || t.strtab == 0
    || t.strsz == 0
    || is_negative (vaddr_to_offset t.symtab phdrs)
    || is_negative (vaddr_to_offset t.strtab phdrs)
    || nsyms == 0
    || ltb 500000 nsyms

-- load_dynsym_via_dynamic after the loop over the dynamic entries.
unfoldable pub read_tables : List ℕ → List Phdr → ℕ → Tables → List SymEntry
read_tables file phdrs load_bias t =
    let nsyms = symbol_count file phdrs t in
    let both = (do
      syms ← pread file (nsyms * 24) (vaddr_to_offset t.symtab phdrs)
      strs ← pread file t.strsz (vaddr_to_offset t.strtab phdrs)
      some (functions (structs symbol 24 nsyms syms) strs load_bias)) in
    if unusable_tables file phdrs t then [] else from_option [] (λ es. es) both

-- load_dynsym_via_dynamic once the dynamic table is read.
unfoldable pub with_dynamic : List ℕ → List Phdr → ℕ → ℕ → List ℕ → Option (List SymEntry)
with_dynamic file phdrs load_bias filesz bytes = do
  t ← read_dynamic (structs dyn 16 (filesz / 16) bytes) no_tables
  some (read_tables file phdrs load_bias t)

-- load_dynsym_via_dynamic: the entries, none of them for false. The outer `none` is a dynamic table
-- without DT_NULL.
unfoldable pub load_dynsym_via_dynamic : List ℕ → List Phdr → ℕ → Option (List SymEntry)
load_dynsym_via_dynamic file phdrs load_bias =
    let at_phdr = λ (p : Phdr).
      if p.p_filesz == 0
      then some []
      else from_option (some []) (with_dynamic file phdrs load_bias p.p_filesz)
          (pread file p.p_filesz p.p_offset) in
    from_option (some []) at_phdr (dyn_phdr phdrs)
