-- ===== src/Kernel.antt =====
-- The system calls that trace/include/DirectWriteBuf.h makes on a descriptor, as an interface, and
-- its loops that repeat a call until everything has been taken.
pub mod Complete
use android_prybar.Base.{
  ℕ, zero, suc, ◌≤◌, ◌<◌, ◌≡◌, List, [], ◌∷◌, ◌++◌, leb, if◌then◌else◌, length, take, drop,
}

-- `transfer` is one `write` or `sendto` call: how many bytes were taken, 0 standing for an error as
-- well. `contents` is what the file or the peer has got so far.
pub record Kernel : Type 1 where
  pub State : Type 0
  pub contents : State → List ℕ
  pub transfer : State → List ℕ → ℕ × State
  pub transfer_count : (s : State) (bytes : List ℕ) → (transfer s bytes).0 ≤ length bytes
  pub transfer_contents :
      (s : State) (bytes : List ℕ)
      → contents (transfer s bytes).1 ≡ contents s ++ take (transfer s bytes).0 bytes

module _ (k : Kernel) where
  open k use {State, transfer}

  -- write_all and send_all: `fuel` is `len`, since every round that goes on takes a byte at least.
  pub transfer_all : ℕ → State → List ℕ → State
  transfer_all zero s bytes = s
  transfer_all (suc fuel) s [] = s
  transfer_all (suc fuel) s (b ∷ bytes) =
      let (r, s') = transfer s (b ∷ bytes) in
      let rest = transfer_all fuel s' (drop r (b ∷ bytes)) in if leb r 0 then s' else rest

  pub write_all : State → List ℕ → State
  write_all s bytes = transfer_all (length bytes) s bytes

  -- A descriptor that never fails.
  abbrev pub IsReliable : Type 0
  IsReliable = (s : State) (b : ℕ) (bytes : List ℕ) → 0 < (transfer s (b ∷ bytes)).0
