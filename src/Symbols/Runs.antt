-- ===== src/Symbols/Runs.antt =====
-- Runs of trace/Utils/SymbolTable.cpp on a file with two functions.
use android_prybar.Base.{
  ℕ, zero, suc, ◌/◌, ◌%◌, ◌≤◌, ◌<◌, ◌≡◌, refl, ◌≢◌, ◌⊎◌, true, none, some, List, [], ◌∷◌, ◌++◌,
  arith, ltb, if◌then◌else◌, get_elem?, replicate, All, bytes_of,
}
use android_prybar.Symbols.{
  SymEntry, SymbolTable, upper_bound, find_exact, name_eq, covers, find_containing, Occurs,
}
use android_prybar.Symbols.Elf.{le, field, phdr, shdr, symbol, Dyn, ehdr, structs, pread, elfmag}
use android_prybar.Symbols.Load.{
  in_some_load, section_in_pt_load, until_zero, functions, usable, read_section, via_sections,
  load_dynsym_via_sections, Tables, no_tables, read_dynamic,
}
use android_prybar.Symbols.Cache.{
  Process, Cache, find_table, has_magic, load_bias, from_sections, read_entries, read_headers,
  read_file, finished, file_at, read_at, load, load_into, base_of, get_or_load_table, lookup_symbol,
  load_symbol_table_for_so,
}
use android_prybar.Symbols.Session.{
  preload, AllLoaded, serve, Reached, start, served, Reached-AllLoaded, lookup_symbol-Nearest,
}
use android_prybar.Symbols.InsertionSort.{insert, sort, insertion_sort}
use android_prybar.Symbols.Find.{Nearest, Reaches, find_exact_correct, find_containing_correct}
use android_prybar.Symbols.Sound.{IsEntry, read_dynamic_result}

word : ℕ → ℕ → List ℕ
word zero v = []
word (suc n) v = v % 256 ∷ word n (v / 256)

-- The symbols `far` at 0x200, of 0x20 bytes, and `near` at 0x100, of no size.
abbrev file : List ℕ
file =
    elfmag
    ++ (2 ∷ [])
    ++ replicate 27 0
    ++ word 8 64
    ++ word 8 120
    ++ replicate 8 0
    ++ word 2 1
    ++ word 2 64
    ++ word 2 2
    ++ replicate 2 0
    ++ (word 4 1
        ++ word 4 5
        ++ word 8 0
        ++ word 8 0
        ++ word 8 0
        ++ word 8 400
        ++ word 8 400
        ++ word 8 0)
    ++ (word 4 0
        ++ word 4 11
        ++ word 8 2
        ++ word 8 248
        ++ word 8 248
        ++ word 8 48
        ++ word 4 1
        ++ replicate 20 0)
    ++ (word 4 0
        ++ word 4 3
        ++ word 8 2
        ++ word 8 296
        ++ word 8 296
        ++ word 8 10
        ++ word 4 0
        ++ replicate 20 0)
    ++ (word 4 1 ++ word 4 2 ++ word 8 0x200 ++ word 8 0x20)
    ++ (word 4 5 ++ word 4 2 ++ word 8 0x100 ++ word 8 0)
    ++ (0 ∷ bytes_of "far")
    ++ (0 ∷ bytes_of "near")
    ++ (0 ∷ [])

abbrev process : Process
process = record {
  memory = λ base n. elfmag;
  dladdr = λ addr. if ltb addr 0x7000 then none else some (0x7000, some (bytes_of "/lib/a.so"));
  open_file = λ path. some file;
}

abbrev near : SymEntry
near = record { addr = 0x7100; size = 0; name = bytes_of "near" }

abbrev far : SymEntry
far = record { addr = 0x7200; size = 0x20; name = bytes_of "far" }

abbrev table_of_file : SymbolTable
table_of_file = record { entries = near ∷ far ∷ []; loaded = true }

loaded_file : load insertion_sort process 0x7000 ≡ some (table_of_file, true)
unfolding load read_at has_magic name_eq file_at read_file read_headers read_entries from_sections
    load_bias load_dynsym_via_sections via_sections usable read_section section_in_pt_load
    in_some_load functions until_zero finished pread structs ehdr phdr shdr symbol field le word
    sort insert
loaded_file = refl

find_exact_correct_example :
    ((e : SymEntry) × Occurs e table_of_file.entries
      × (e.addr ≡ 0x7200)
      × (find_exact 0x7200 table_of_file ≡ some e.name))
    ⊎ ((find_exact 0x7200 table_of_file ≡ none)
        × ((e : SymEntry) → Occurs e table_of_file.entries → e.addr ≢ 0x7200))
find_exact_correct_example = find_exact_correct 0x7200 table_of_file (omega arith)

find_containing_correct_example :
    ((e : SymEntry) × Nearest 0x7210 table_of_file e
      × Reaches 0x7210 e
      × (find_containing 0x7210 table_of_file ≡ some e))
    ⊎ ((find_containing 0x7210 table_of_file ≡ none)
        × (((f : SymEntry) → Occurs f table_of_file.entries → 0x7210 < f.addr)
            ⊎ ((e : SymEntry) × Nearest 0x7210 table_of_file e × ¬ Reaches 0x7210 e)))
find_containing_correct_example =
    find_containing_correct 0x7210 table_of_file (omega arith) (omega arith) (omega arith)

read_dynamic_result_example :
    ((t' : Tables) × (read_dynamic (record { d_tag = 5; d_val = 9 } ∷ []) no_tables ≡ some t')
      × (i : ℕ) × (d : Dyn) × (get_elem? (record { d_tag = 5; d_val = 9 } ∷ []) i ≡ some d)
      × (d.d_tag ≡ 0))
    ⊎ ((read_dynamic (record { d_tag = 5; d_val = 9 } ∷ []) no_tables ≡ none)
        × All (λ (d : Dyn). d.d_tag ≢ 0) (record { d_tag = 5; d_val = 9 } ∷ []))
read_dynamic_result_example = read_dynamic_result (record { d_tag = 5; d_val = 9 } ∷ []) no_tables

abbrev cached : Cache
cached = (0x7000, table_of_file) ∷ []

served_table : serve insertion_sort process (preload 0x7000) [] ≡ some cached
unfolding serve load_symbol_table_for_so load_into find_table
served_table = rw loaded_file

reached : Reached insertion_sort process cached
reached = served (preload 0x7000) [] cached start served_table

looked_up : lookup_symbol insertion_sort process 0x7204 cached ≡ some (cached, some far)
unfolding lookup_symbol get_or_load_table base_of has_magic name_eq find_table find_containing
    upper_bound covers
looked_up = refl

Reached-AllLoaded_example : AllLoaded cached
Reached-AllLoaded_example = Reached-AllLoaded insertion_sort process cached reached

lookup_symbol-Nearest_example :
    (base : ℕ) × (t : SymbolTable) × (base_of insertion_sort process 0x7204 ≡ some base)
    × (find_table base cached ≡ some t)
    × IsEntry far
    × Occurs far t.entries
    × (far.addr ≤ 0x7204)
    × ((f : SymEntry) → Occurs f t.entries → f.addr ≤ 0x7204 → f.addr ≤ far.addr)
lookup_symbol-Nearest_example =
    lookup_symbol-Nearest insertion_sort process 0x7204 cached cached far reached looked_up

found_table :
    get_or_load_table insertion_sort process 0x7204 cached ≡ some (cached, some table_of_file)
unfolding get_or_load_table base_of has_magic name_eq find_table
found_table = refl
