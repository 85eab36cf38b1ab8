-- ===== src/DirectWriteBuf/Emit.antt =====
-- What `flush`, `flushFromSignal` and `bg_worker` of trace/include/DirectWriteBuf.h write for one
-- buffer.
use android_prybar.Base.{
  ℕ, suc, ◌^◌, ◌≤◌, ◌<◌, ◌≡◌, refl, ap, ◌∙◌, none, some, List, [], ◌∷◌, ◌++◌, append_assoc, arith,
  IsByte, lt→ltb, length, take, All, length-take, All-take,
}
use android_prybar.Lz4.{compress_bound, HashTable, zero_returned, written, compress_block}
use android_prybar.Lz4.Format.{decode_loop, decode}
use android_prybar.Lz4.Correct.{Compresses, compress_block-Compresses}
use android_prybar.Frames.{header}
use android_prybar.Frames.Parse.{frame, Stream}
use android_prybar.Kernel.{Kernel, write_all, IsReliable}
use android_prybar.Kernel.Complete.{write_all_complete}
use android_prybar.DirectWriteBuf.{emit}

decode-none : decode [] ≡ none
unfolding decode decode_loop
decode-none = refl

module _ (k : Kernel) (ok : IsReliable k) (buf : List ℕ) (size tid : ℕ) (some_bytes : 0 < size)
    (inside : size ≤ length buf) (small : compress_bound size < 2 ^ 31) (bytes : All IsByte buf)
    (tid_small : tid < 2 ^ 32) where
  open k use {State, contents}

  write_frame :
      (s : State) (out : List ℕ)
      → contents (write_all k (write_all k s (header (length out) size tid)) out)
        ≡ contents s ++ frame out size tid
  write_frame s out =
      write_all_complete k ok (write_all k s (header (length out) size tid)) out
      ∙ ap (λ xs. xs ++ out) (write_all_complete k ok s (header (length out) size tid))
      ∙ append_assoc (contents s) (header (length out) size tid) out

  -- One more frame: it stands for the first `size` bytes of the buffer, whatever the compressor's
  -- table held.
  pub emit-Stream :
      (htab : HashTable) (s : State) {n : ℕ} {plain : List ℕ}
      → Stream n (contents s) plain
      → (htab' : HashTable) × (s' : State) × (emit k htab buf size tid s ≡ some (htab', s'))
        × Stream (suc n) (contents s') (plain ++ take size buf)
  unfolding emit
  emit-Stream htab s {n} {plain} so_far = go (
      compress_block-Compresses (take size buf) (All-take IsByte size buf bytes)
        (omega (arith, taken)) (compress_bound size) htab (omega (arith, taken)))
    where
      taken : length (take size buf) ≡ size
      taken = omega (arith, length-take size buf)

      go :
          Compresses
            (take size buf)
            (compress_bound size)
            (compress_block htab (take size buf) (compress_bound size))
          → (htab' : HashTable) × (s' : State) × (emit k htab buf size tid s ≡ some (htab', s'))
            × Stream (suc n) (contents s') (plain ++ take size buf)
      go (zero_returned h, e, c) = absurd (omega (arith, taken, rw taken at c))
      go (written [] h, e, c) = absurd (cc (c.0, decode-none))
      go (written (x ∷ out) h, e, c) = (
        h,
        write_all k (write_all k s (header (length (x ∷ out)) size tid)) (x ∷ out),
        rw (e, lt→ltb 0 (length (x ∷ out)) (omega arith)),
        rw (write_frame s (x ∷ out)) (
            Stream.and_frame so_far (x ∷ out) (take size buf) size tid c.0 (omega arith)
              (omega (arith, taken, c.2)) (omega arith) tid_small),
      )
