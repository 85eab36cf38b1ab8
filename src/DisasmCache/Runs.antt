-- ===== src/DisasmCache/Runs.antt =====
-- Runs of the DisasmCache of trace/src/EastTrace.cpp. The addresses 0x1000, 0x11000, 0x41004 and so on
-- share a set.
use android_prybar.Base.{ℕ, ◌≡◌, refl, ◌≢◌, List, [], ◌∷◌, arith, bytes_of}
use android_prybar.DisasmCache.{DisasmCache, no_cache, hash_addr, find_way, get, new_entry, put}
use android_prybar.DisasmCache.Laws.{peek, get-peek, put_all, recent_survives}
use android_prybar.DisasmCache.Account.{count, owned}
use android_prybar.DisasmCache.History.{
  Call, looked_up, stored, noted, trim, run, stored_insns, run-owned,
}

abbrev text : ℕ → List ℕ
text insn = bytes_of "nop"

abbrev one_put : DisasmCache
one_put = put text text 0x1000 7 no_cache

abbrev full_set : DisasmCache
full_set = put text text 0x31000 10 (put text text 0x21000 9 (put text text 0x11000 8 one_put))

-- The oldest entry is found at the back, and a fifth one pushes out the instruction 8.
found_at_back : (get 0x1000 full_set).1 ≡ 7
unfolding get put find_way hash_addr new_entry
found_at_back = refl

pushed_out : (put text text 0x41004 11 (get 0x1000 full_set).0).freed ≡ 8 ∷ []
unfolding get put find_way hash_addr new_entry
pushed_out = refl

get-peek_example :
    ((get 0x1000 full_set).1 ≡ peek 0x1000 full_set)
    × ((b : ℕ) → peek b (get 0x1000 full_set).0 ≡ peek b full_set)
get-peek_example = get-peek 0x1000 full_set

abbrev news : List (ℕ × ℕ)
news = (0x41004, 11) ∷ (0x51004, 12) ∷ (0x61004, 13) ∷ []

full_set_live : peek 0x1000 full_set ≢ 0
full_set_live e = cc ((get-peek 0x1000 full_set).0, found_at_back, e)

recent_survives_example :
    peek 0x1000 (put_all text text news (get 0x1000 full_set).0) ≡ peek 0x1000 full_set
recent_survives_example =
    recent_survives text text 0x1000 full_set news full_set_live
      (omega arith, (omega arith, (omega arith, tt))) (omega arith)

abbrev ops : List Call
ops =
    stored 0x1000 7 ∷ stored 0x11000 8 ∷ looked_up 0x1000 ∷ noted 0x1000 (5 ∷ []) 1 [] 0 ∷ trim ∷ []

run-owned_example : owned 7 (run text text ops no_cache) ≡ count 7 (stored_insns ops)
run-owned_example = run-owned 7 text text ops (omega arith)
