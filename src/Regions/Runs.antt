-- ===== src/Regions/Runs.antt =====
-- Runs of the region notes of trace/src/FuncCallTrace.cpp.
use android_prybar.Base.{
  ◌≡◌, refl, sym, subst, true, false, Option, none, some, List, [], ◌∷◌, arith, get_elem?, bytes_of,
}
use android_prybar.Symbols.{SymEntry, SymbolTable, upper_bound, name_eq, covers, find_containing}
use android_prybar.Regions.{
  PtrRegion, MapsLine, skip_spaces, has_char, after_slash, begins_with, text_eq, find_base,
  region_of, rebuild_loop, rebuild_ptr_regions, search_loop, find_ptr_region, Snapshot, Maps,
  ensure_regions_fresh, annotation, append_ptr_annotation,
}
use android_prybar.Regions.Search.{IsAscending, Finds, find_ptr_region-Finds}
use android_prybar.Regions.Rebuild.{rebuild_ptr_regions-IsAscending}
use android_prybar.Symbols.Cache.{
  Process, Cache, find_table, has_magic, finished, read_at, load, load_into,
  load_symbol_table_for_so,
}
use android_prybar.Symbols.InsertionSort.{insertion_sort}
use android_prybar.Regions.Live.{Live}
use android_prybar.Regions.Dangles.{append_region_tag-dangles}
use android_prybar.Regions.FirstStart.{parsed}
use android_prybar.Regions.Bases.{Describes, rebuild_ptr_regions-HasBase}
use android_prybar.Symbols.Session.{preload, serve}
use android_prybar.Regions.Others.{serve-Agrees}
use android_prybar.Regions.Tag.{
  SymCache, cleared_cache, deref, Tls, symbol_text, symbol_in, segment, region_text, kept,
  append_region_tag,
}
use android_prybar.Regions.Cached.{direct_tag, Agrees, Tags, append_region_tag-direct}
use android_prybar.Numbers.{hex_char, digit_loop, reversed, uint64_to_hex}

-- Two segments of /lib/a.so, a line that does not parse, and an anonymous segment.
abbrev lines : List (Option MapsLine)
lines =
    some (record {
      from_addr = 0x700000;
      to_addr = 0x701000;
      flags = bytes_of "r-xp";
      path = bytes_of " /lib/a.so";
    })
    ∷ some (record {
      from_addr = 0x701000;
      to_addr = 0x702000;
      flags = bytes_of "rw-p";
      path = bytes_of " /lib/a.so";
    })
    ∷ none
    ∷ some (record {
      from_addr = 0x800000;
      to_addr = 0x801000;
      flags = bytes_of "rwxp";
      path = bytes_of "";
    })
    ∷ []

abbrev maps : Maps
maps = record { generation = 5; lines = some lines }

abbrev stale : Snapshot
stale = record { regions = []; built_gen = 0xFFFFFFFF }

-- A tagged pointer into the second segment.
tagged :
    append_ptr_annotation maps 0xB400000000701010 stale
    ≡ some (ensure_regions_fresh maps stale, bytes_of " (a.so+0x1010)")
unfolding append_ptr_annotation ensure_regions_fresh rebuild_ptr_regions rebuild_loop region_of
    skip_spaces has_char after_slash begins_with text_eq find_base find_ptr_region search_loop
    annotation uint64_to_hex digit_loop hex_char reversed
tagged = refl

-- The second segment has the base of the first.
rebuild_ptr_regions-HasBase_example :
    Describes (parsed lines) (rebuild_ptr_regions lines) 1 (record {
      from_addr = 0x701000;
      to_addr = 0x702000;
      flags = bytes_of "rw-p";
      path = bytes_of " /lib/a.so";
    })
rebuild_ptr_regions-HasBase_example =
    rebuild_ptr_regions-HasBase lines 1
      (record {
        from_addr = 0x701000;
        to_addr = 0x702000;
        flags = bytes_of "rw-p";
        path = bytes_of " /lib/a.so";
      })
      refl

abbrev one_region : PtrRegion
one_region = record {
  start = 0x1000;
  end = 0x2000;
  module_base = 0x1000;
  perms = 3;
  named = false;
  label = [];
}

find_ptr_region-Finds_example :
    Finds 0x1800 (one_region ∷ []) (find_ptr_region 0x1800 (one_region ∷ []))
find_ptr_region-Finds_example = find_ptr_region-Finds 0x1800 (one_region ∷ []) (omega arith)

fresh-IsAscending : IsAscending (ensure_regions_fresh maps stale).regions
unfolding ensure_regions_fresh
fresh-IsAscending = (rebuild_ptr_regions-IsAscending lines (omega arith)).0

abbrev process : Process
process = record { memory = λ base n. []; dladdr = λ addr. none; open_file = λ path. none }

abbrev go : SymEntry
go = record { addr = 0x700FF0; size = 0x100; name = bytes_of "go" }

abbrev table : SymbolTable
table = record { entries = go ∷ []; loaded = true }

-- The symbols of /lib/a.so have been loaded, and nothing has been cleared.
abbrev symbols : SymCache
symbols = record { cache = (0x700000, table) ∷ []; clears = 0 }

-- The second segment.
abbrev data_region : PtrRegion
data_region = record {
  start = 0x701000;
  end = 0x702000;
  module_base = 0x700000;
  perms = 3;
  named = true;
  label = bytes_of "a.so";
}

abbrev fresh : Snapshot
fresh = ensure_regions_fresh maps stale

-- The thread that has met the second segment.
abbrev met : Tls
met = kept 0 5 data_region

fresh-has : get_elem? fresh.regions 1 ≡ some data_region
unfolding ensure_regions_fresh rebuild_ptr_regions rebuild_loop region_of skip_spaces has_char
    after_slash begins_with text_eq find_base
fresh-has = refl

fresh-built : fresh.built_gen ≡ 5
unfolding ensure_regions_fresh
fresh-built = refl

fresh_again : ensure_regions_fresh maps fresh ≡ fresh
unfolding ensure_regions_fresh rebuild_ptr_regions rebuild_loop region_of skip_spaces has_char
    after_slash begins_with text_eq find_base
fresh_again = refl

met-Live : Live symbols met.tbl
unfolding kept deref find_table
met-Live = (table, refl, refl)

met-Agrees : Agrees maps symbols fresh met
met-Agrees same some_region = (fresh-built, (1, data_region, fresh-has, refl), met-Live)

-- A hit: the thread's region serves, and its pointer gives the symbol.
hit :
    append_region_tag insertion_sort process maps 0x701010 symbols fresh met
    ≡ some (symbols, fresh, met, bytes_of " a.so+0x1010:rw go+0x20")
unfolding append_region_tag region_text kept deref find_table symbol_in symbol_text find_containing
    upper_bound covers segment uint64_to_hex digit_loop hex_char reversed
hit = refl

append_region_tag-direct_example :
    Tags insertion_sort process maps symbols fresh 0x701010
      (append_region_tag insertion_sort process maps 0x701010 symbols fresh met)
      (direct_tag insertion_sort process maps 0x701010 symbols fresh)
append_region_tag-direct_example =
    append_region_tag-direct insertion_sort process maps symbols fresh 0x701010 met met-Agrees
      (subst (λ s. IsAscending s.regions) (sym fresh_again) fresh-IsAscending)

append_region_tag-dangles_example :
    append_region_tag insertion_sort process maps 0x701010
      (cleared_cache symbols)
      fresh
      (kept 0 5 data_region)
    ≡ none
append_region_tag-dangles_example =
    append_region_tag-dangles insertion_sort process maps 0x701010 symbols (cleared_cache symbols)
      fresh data_region refl (omega arith) (omega arith) (omega arith)

-- The symbols of a further object, of which nothing can be read.
abbrev with_other : Cache
with_other = (0x800000, record { entries = []; loaded = true }) ∷ symbols.cache

preloaded : serve insertion_sort process (preload 0x800000) symbols.cache ≡ some with_other
unfolding serve load_symbol_table_for_so load_into find_table load read_at has_magic name_eq
    finished
preloaded = refl

serve-Agrees_example :
    Agrees maps (record symbols { cache = with_other }) (ensure_regions_fresh maps fresh) met
serve-Agrees_example =
    serve-Agrees insertion_sort process maps (preload 0x800000) symbols with_other fresh met
      (λ same. cc same) preloaded met-Agrees
