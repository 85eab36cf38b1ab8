-- ===== src/Base/Text.antt =====
-- A text literal as the bytes of an ASCII string, without the terminator.
use Prim.Native.Nat.{ℕ}
use Prim.Native.Char.{code}
use Prim.Native.String.{String}
use mathlib.Core.List.{List, [], ◌∷◌}

abbrev pub bytes_of : String → List ℕ
bytes_of String.[] = []
bytes_of (String.◌∷◌ letter rest) = code letter ∷ bytes_of rest
