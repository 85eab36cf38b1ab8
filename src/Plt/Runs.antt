-- ===== src/Plt/Runs.antt =====
-- A stub for resolvePltTarget of trace/src/EastTrace.cpp.
use android_prybar.Base.{ℕ, ◌≡◌, refl, arith, ◌==◌, if◌then◌else◌}
use android_prybar.Plt.{resolve_plt_target}
use android_prybar.Plt.Stub.{page_delta, adrp_x16, ldr_x17, resolve_plt_target-stub}

-- A stub at 0x712340 whose entry stands at 0x6FF018, below it.
abbrev word : ℕ → ℕ
word a =
    if a == 0x712340
    then adrp_x16 (page_delta 0x712340 0x6FF018)
    else if a == 0x712344
    then ldr_x17 3
    else 0

abbrev quad : ℕ → ℕ
quad a = if a == 0x6FF018 then 0x123456 else 0

first_word : word 0x712340 ≡ 0xB0FFFF70
first_word = refl

resolve_plt_target-stub_example : resolve_plt_target word quad 0x712340 ≡ quad 0x6FF018
resolve_plt_target-stub_example =
    resolve_plt_target-stub word quad 0x712340 0x6FF018 (omega arith) (omega arith) (omega arith)
      (omega arith) (omega arith) refl refl
