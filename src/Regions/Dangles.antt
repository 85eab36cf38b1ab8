-- ===== src/Regions/Dangles.antt =====
-- clearSymbolCache of trace/Utils/SymbolTable.cpp and the pointer that appendRegionTag of
-- trace/src/FuncCallTrace.cpp keeps.
use android_prybar.Base.{ℕ, ◌≤◌, ◌<◌, ◌≡◌, refl, true, false, none, arith, ltb, leb, ◌==◌, ==_iff}
use android_prybar.Symbols.Cache.{Sorter, Process}
use android_prybar.Numbers.Decode.{uint64_to_hex-Formats}
use android_prybar.Regions.{PtrRegion, Snapshot, Maps, untagged}
use android_prybar.Regions.Search.{Contains}
use android_prybar.Regions.Tag.{
  SymCache, cleared_cache, deref, minus, region_text, kept, append_region_tag,
}

module _ (made gen addr : ℕ) (r : PtrRegion) (named : r.named ≡ true) (later : SymCache)
    (cleared : made < later.clears) where
  deref-gone : deref later (record { key = r.module_base; made = made }) ≡ none
  unfolding deref
  deref-gone = let other : (made == later.clears) ≡ false = ground arith in rw other refl

  region_text-gone : region_text later addr (kept made gen r) ≡ none
  unfolding region_text kept
  region_text-gone =
      let (hex, e, short, value) = uint64_to_hex-Formats (minus addr r.module_base) (omega arith) in
      rw named (rw e (rw deref-gone refl))

-- If a thread keeps a region of a module and clearSymbolCache is called, then on an address in the region
-- that is not below 0x1000, while the maps have not changed, appendRegionTag reads through a pointer to
-- nothing, whatever has been loaded since.
pub append_region_tag-dangles :
    (sorter : Sorter) (process : Process) (maps : Maps) (rawaddr : ℕ) (sc later : SymCache)
    (st : Snapshot) (r : PtrRegion)
    → r.named ≡ true
    → 0x1000 ≤ untagged rawaddr
    → Contains (untagged rawaddr) r
    → (cleared_cache sc).clears ≤ later.clears
    → append_region_tag sorter process maps rawaddr later st (kept sc.clears maps.generation r)
      ≡ none
unfolding append_region_tag kept
append_region_tag-dangles sorter process maps rawaddr sc later st r named high inside cleared =
    let low : ltb (untagged rawaddr) 0x1000 ≡ false = ground arith in
    let same : (maps.generation == maps.generation) ≡ true = (==_iff _ _).1 refl in
    let above : leb r.start (untagged rawaddr) ≡ true = ground (arith, inside.0) in
    let below : ltb (untagged rawaddr) r.end ≡ true = ground (arith, inside.1) in
    let gone =
      region_text-gone sc.clears maps.generation (untagged rawaddr) r named later
        (omega (arith, cleared)) in
    rw (low, same, above, below) (rw gone refl)
