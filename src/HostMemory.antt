-- ===== src/HostMemory.antt =====
-- trace/include/SafeMemRead.h: reading the host's memory without faulting. The host is a parameter:
-- which bytes are mapped, and the page size.
pub mod Text
pub mod Strings
mod Runs
use android_prybar.Base.{
  ℕ, zero, suc, ◌+◌, ◌-◌, ◌/◌, ◌%◌, ◌<◌, ◌≡◌, Bool, true, false, ◌&&◌, ◌||◌, Option, none, some,
  List, [], ◌∷◌, ◌++◌, ltb, leb, ◌==◌, if◌then◌else◌, ◌>>=◌, u64, length, take,
}

-- `byte` is `none` at an address that cannot be read. Pages can be read as a whole or not at all.
pub record Host : Type 0 where
  pub page_size : ℕ
  pub page_some : 0 < page_size
  pub byte : ℕ → Option ℕ
  pub whole_pages :
      (a b c : ℕ) → a / page_size ≡ b / page_size → byte a ≡ some c → (d : ℕ) × (byte b ≡ some d)

module _ (host : Host) where
  -- process_vm_readv, when it transfers all of the `n` bytes.
  unfoldable pub read_bytes : ℕ → ℕ → Option (List ℕ)
  read_bytes zero addr = some []
  read_bytes (suc n) addr = do b ← host.byte addr; rest ← read_bytes n (addr + 1); some (b ∷ rest)

  -- safe_host_read: the bytes, or `none` for false.
  unfoldable pub safe_host_read : ℕ → ℕ → Option (List ℕ)
  safe_host_read addr len =
      if addr == 0 || ltb addr 0x1000 || len == 0 then none else read_bytes len addr

  -- The loop over `tmp`: the bytes before the first zero, and whether there is one.
  unfoldable pub scan : List ℕ → List ℕ × Bool
  scan [] = ([], false)
  scan (c ∷ rest) =
      let (text, ended) = scan rest in if c == 0 then ([], true) else (c ∷ text, ended)

  -- page_remain: `(addr + i) & (ps - 1)` is the remainder, the page size being a power of two.
  unfoldable pub page_remain : ℕ → ℕ → ℕ
  page_remain addr i = host.page_size - u64 (addr + i) % host.page_size

  -- The loop that safe_read_cstr and appendCStr share: chunks up to the end of a page, until a zero
  -- is found, a read fails, or `limit` bytes have been taken. The result has the bytes taken and
  -- whether a zero was found.
  unfoldable pub read_loop : ℕ → (ℕ → ℕ) → ℕ → ℕ → List ℕ → Option (List ℕ × Bool)
  read_loop zero chunk_of limit addr taken = none
  read_loop (suc fuel) chunk_of limit addr taken =
      let again = λ (part : List ℕ). read_loop fuel chunk_of limit addr (taken ++ part) in
      let body =
        elim (safe_host_read (u64 (addr + length taken)) (chunk_of (length taken)))
          as (λ _. Option (List ℕ × Bool)) [
            | none ↦ some (taken, false)
            | some tmp ↦
                let (part, ended) = scan tmp in
                if ended then some (taken ++ part, true) else again part
          ] in
      if ltb (length taken) limit then body else some (taken, false)

  -- The chunk of safe_read_cstr at `buf[i]`.
  unfoldable pub cstr_chunk : ℕ → ℕ → ℕ → ℕ
  cstr_chunk addr maxlen i =
      let chunk =
        if ltb (page_remain addr i) (maxlen - i) then page_remain addr i else maxlen - i in
      if ltb 4096 chunk then 4096 else chunk

  -- safe_read_cstr: the number returned and the text before the terminator in `buf`, or `none` for
  -- -1. The outer `none` is a loop out of fuel.
  unfoldable pub safe_read_cstr : ℕ → ℕ → Option (Option (ℕ × List ℕ))
  safe_read_cstr addr maxlen =
      let body = (do
        (taken, ended) ← read_loop (suc maxlen) (cstr_chunk addr maxlen) maxlen addr []
        let full = if ltb (length taken) maxlen then taken else take (maxlen - 1) taken
        if ended
            then some (some (length taken, taken))
            else if ltb 0 (length taken)
            then some (some (length taken, full))
            else some none) in
      if addr == 0 || ltb addr 0x1000 || maxlen == 0 then some none else body

  -- The chunk of appendCStr.
  pub append_chunk : ℕ → ℕ → ℕ
  append_chunk addr total =
      let chunk = if ltb (page_remain addr total) 4096 then page_remain addr total else 4096 in
      if ltb (4096 - total) chunk then 4096 - total else chunk

  -- appendCStr: the text appended, and the result.
  pub append_cstr : ℕ → Option (List ℕ × Bool)
  append_cstr addr =
      let body = (do
        (taken, ended) ← read_loop 4097 (append_chunk addr) 4096 addr []
        some (taken, ended || ltb 0 (length taken))) in
      if addr == 0 || ltb addr 0x1000 then some ([], false) else body

  -- The loop of safe_looks_like_cstr; `none` is `return false`.
  pub count_printable : List ℕ → Option ℕ
  count_printable [] = some 0
  count_printable (c ∷ rest) =
      let counted = (do n ← count_printable rest; some (n + 1)) in
      if c == 0 then some 0 else if leb 32 c && leb c 126 then counted else none

  pub safe_looks_like_cstr : ℕ → ℕ → Bool
  safe_looks_like_cstr addr min_printable =
      if addr == 0 || ltb addr 0x1000
      then false
      else elim (safe_host_read addr 256 >>= count_printable) as (λ _. Bool) [
        | none ↦ false
        | some count ↦ leb min_printable count
      ]
