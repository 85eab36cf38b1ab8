-- ===== src/StringBuilder/Runs.antt =====
-- The string builder at concrete inputs.
use android_prybar.Base.{◌≡◌, refl, none, some, [], ◌∷◌, ◌++◌, arith, replicate}
use android_prybar.StringBuilder.{
  StringBuilder, doubled_until, append_string_n, free_string_builder,
}
use android_prybar.StringBuilder.Holds.{Holds, Leaves, append_string_n-Holds}

-- A builder of four bytes that has one in it.
abbrev small : StringBuilder
small = record { buffer = some (65 ∷ 0 ∷ 9 ∷ 9 ∷ []); length = 1; capacity = 4 }

small-Holds : Holds small (65 ∷ [])
small-Holds = record {
  memory = 65 ∷ 0 ∷ 9 ∷ 9 ∷ [];
  has_memory = refl;
  size = refl;
  text_is = refl;
  room = omega arith;
  long = refl;
}

append_string_n-Holds_example :
    Leaves ((65 ∷ []) ++ replicate 20 66) (append_string_n 7 small (replicate 20 66))
append_string_n-Holds_example =
    append_string_n-Holds 7 small (65 ∷ []) (replicate 20 66) small-Holds (omega arith)

-- A builder that has been freed: the doubling of 0 never ends.
freed_stuck : append_string_n 7 (free_string_builder small) (65 ∷ []) ≡ none
unfolding append_string_n free_string_builder doubled_until
freed_stuck = refl
