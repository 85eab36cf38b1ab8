-- ===== src/MemAccess/Runs.antt =====
-- The sizes at concrete inputs.
use android_prybar.Base.{◌≡◌, refl, none, some, [], ◌∷◌}
use android_prybar.MemAccess.{
  reg_width, ldp, fixed_size, moves_pair, widest, size_of_widest, size_by_operands, size_or,
  mem_access_size,
}

-- ldp q0, q1, [sp]
pair_of_quads : mem_access_size ldp (some (some 140 ∷ some 141 ∷ none ∷ [])) ≡ 32
unfolding mem_access_size fixed_size size_or size_by_operands size_of_widest widest moves_pair
    reg_width
pair_of_quads = refl
