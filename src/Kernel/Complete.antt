-- ===== src/Kernel/Complete.antt =====
-- `write_all` and `send_all` of trace/include/DirectWriteBuf.h pass on what they are given.
use android_prybar.Base.{
  ℕ, zero, suc, ◌≤◌, ◌≡◌, sym, ap, ◌∙◌, false, List, [], ◌∷◌, ◌++◌, append-nil, append_assoc, arith,
  leb, lt→leb_false, length, take, drop, length-drop, take-append-drop,
}
use android_prybar.Kernel.{Kernel, transfer_all, write_all, IsReliable}

module _ (k : Kernel) where
  open k use {State, contents, transfer, transfer_count, transfer_contents}

  transfer_all_complete :
      IsReliable k
      → (fuel : ℕ) (s : State) (bytes : List ℕ) → length bytes ≤ fuel
      → contents (transfer_all k fuel s bytes) ≡ contents s ++ bytes
  unfolding transfer_all
  transfer_all_complete ok zero s [] h = sym (append-nil (contents s))
  transfer_all_complete ok zero s (b ∷ bytes) h = absurd (omega arith)
  transfer_all_complete ok (suc fuel) s [] h = sym (append-nil (contents s))
  transfer_all_complete ok (suc fuel) s (b ∷ bytes) h =
      let r = (transfer s (b ∷ bytes)).0 in
      let some_taken : leb r 0 ≡ false = lt→leb_false r 0 (ok s b bytes) in
      rw some_taken (
        transfer_all_complete ok fuel (transfer s (b ∷ bytes)).1 (drop r (b ∷ bytes))
          (omega (arith, length-drop r (b ∷ bytes), ok s b bytes))
        ∙ ap (λ xs. xs ++ drop r (b ∷ bytes)) (transfer_contents s (b ∷ bytes))
        ∙ append_assoc (contents s) (take r (b ∷ bytes)) (drop r (b ∷ bytes))
        ∙ ap (λ xs. contents s ++ xs) (take-append-drop r (b ∷ bytes)))

  -- On a descriptor that never fails, everything arrives.
  pub write_all_complete :
      IsReliable k
      → (s : State) (bytes : List ℕ) → contents (write_all k s bytes) ≡ contents s ++ bytes
  unfolding write_all
  write_all_complete ok s bytes = transfer_all_complete ok (length bytes) s bytes (omega arith)
