-- ===== src/DisasmCache/History.antt =====
-- Histories of calls on the DisasmCache of trace/src/EastTrace.cpp.
use android_prybar.Base.{ℕ, zero, suc, ◌+◌, ◌^◌, ◌≡◌, refl, ◌∙◌, ◌≢◌, List, [], ◌∷◌, arith}
use android_prybar.DisasmCache.{DisasmCache, no_cache, get, put, put_reg_access, clear, trim_cold}
use android_prybar.DisasmCache.Account.{
  count, held, held_below, owned, get-owned, put_reg_access-owned, put-owned, trim_cold-owned,
  clear-owned, clear-count,
}

-- A call on the cache, with its arguments.
pub data Call : Type 0 where
  looked_up : ℕ → Call
  stored : ℕ → ℕ → Call
  noted : ℕ → List ℕ → ℕ → List ℕ → ℕ → Call
  trim cleared : Call

module _ (mnemonic op_str : ℕ → List ℕ) where
  unfoldable pub call : Call → DisasmCache → DisasmCache
  call (looked_up addr) c = (get addr c).0
  call (stored addr insn) c = put mnemonic op_str addr insn c
  call (noted addr reads m writes n) c = put_reg_access addr reads m writes n c
  call trim c = trim_cold c
  call cleared c = clear c

  unfoldable pub run : List Call → DisasmCache → DisasmCache
  run [] c = c
  run (op ∷ ops) c = run ops (call op c)

-- The instructions that a history puts into the cache.
unfoldable pub stored_insns : List Call → List ℕ
stored_insns [] = []
stored_insns (looked_up addr ∷ ops) = stored_insns ops
stored_insns (stored addr insn ∷ ops) = insn ∷ stored_insns ops
stored_insns (noted addr reads m writes n ∷ ops) = stored_insns ops
stored_insns (trim ∷ ops) = stored_insns ops
stored_insns (cleared ∷ ops) = stored_insns ops

held_below-no_cache : (n x : ℕ) → x ≢ 0 → held_below n x no_cache.sets ≡ 0
unfolding held_below held
held_below-no_cache zero x real = refl
held_below-no_cache (suc n) x real = ground (arith, real, held_below-no_cache n x real)

owned-no_cache : (x : ℕ) → x ≢ 0 → owned x no_cache ≡ 0
unfolding owned count
owned-no_cache x real = omega (arith, held_below-no_cache (2 ^ 14) x real)

module _ (x : ℕ) (real : x ≢ 0) (mnemonic op_str : ℕ → List ℕ) where
  run-owned_from :
      (ops : List Call) (c : DisasmCache)
      → owned x (run mnemonic op_str ops c) ≡ owned x c + count x (stored_insns ops)
  unfolding run call stored_insns count
  run-owned_from [] c = omega arith
  run-owned_from (looked_up addr ∷ ops) c =
      omega (arith, run-owned_from ops (get addr c).0, get-owned x real addr c)
  run-owned_from (stored addr insn ∷ ops) c = omega (
    arith,
    run-owned_from ops (put mnemonic op_str addr insn c),
    put-owned x real mnemonic op_str addr insn c,
  )
  run-owned_from (noted addr reads m writes n ∷ ops) c = omega (
    arith,
    run-owned_from ops (put_reg_access addr reads m writes n c),
    put_reg_access-owned x real addr reads m writes n c,
  )
  run-owned_from (trim ∷ ops) c =
      omega (arith, run-owned_from ops (trim_cold c), trim_cold-owned x real c)
  run-owned_from (cleared ∷ ops) c =
      omega (arith, run-owned_from ops (clear c), clear-owned x real c)

-- After any history of calls from the empty cache, an instruction is in the cache or has been given
-- to cs_free exactly as often, both counted, as it was put: none is lost, and one that was put once
-- is freed at most once and never while a way holds it.
pub run-owned :
    (x : ℕ) (mnemonic op_str : ℕ → List ℕ) (ops : List Call)
    → x ≢ 0
    → owned x (run mnemonic op_str ops no_cache) ≡ count x (stored_insns ops)
run-owned x mnemonic op_str ops real =
    omega (arith, run-owned_from x real mnemonic op_str ops no_cache, owned-no_cache x real)

-- After clear no way of any set holds an instruction, so every one that was put has been freed.
pub clear_frees_all :
    (x : ℕ) (mnemonic op_str : ℕ → List ℕ) (ops : List Call)
    → x ≢ 0
    → count x (clear (run mnemonic op_str ops no_cache)).freed ≡ count x (stored_insns ops)
clear_frees_all x mnemonic op_str ops real =
    clear-count x real c ∙ clear-owned x real c ∙ run-owned x mnemonic op_str ops real
  where
    c : DisasmCache
    c = run mnemonic op_str ops no_cache
