-- ===== src/Svc/Pending.antt =====
-- svc_flush_pending of trace/src/svc_handler.cpp.
pub mod Total
use android_prybar.Base.{
  ℕ, ◌-◌, ◌^◌, ◌&&◌, Option, none, some, List, [], ◌∷◌, ltb, if◌then◌else◌, ◌>>=◌, u32, negated32,
}
use android_prybar.Numbers.{uint64_to_dec}
use android_prybar.HostMemory.{Host, safe_host_read}
use android_prybar.Svc.{
  PendingType, pend_none, pend_fd_open, pend_read_buf, pend_generic, SvcPending,
}
use android_prybar.Svc.FdTracker.{FdTracker, add}
use android_prybar.Svc.Dump.{parts, lit, append_hex_val, buf_text}
use android_prybar.Svc.Handle.{fd, Handled}

-- SVC_PEND_FD_OPEN: `fd` is the bit pattern of an int32_t.
pub opened_text : ℕ → Option (List ℕ)
opened_text fd =
    let failed =
      parts (lit "    => fd=" ∷ lit "-" ∷ uint64_to_dec (negated32 fd) ∷ lit " (error)\n" ∷ []) in
    let opened = parts (lit "    => fd=" ∷ uint64_to_dec fd ∷ lit "\n" ∷ []) in
    if ltb fd (2 ^ 31) then opened else failed

-- The dump behind the number of bytes read.
pub read_dump : Host → ℕ → ℕ → List ℕ
read_dump host buf_addr bytes_read =
    let dump_len = if ltb 128 bytes_read then 128 else bytes_read in
    let dump = elim (safe_host_read host buf_addr dump_len) as (λ _. List ℕ) [
      | none ↦ []
      | some got ↦ buf_text got bytes_read
    ] in
    if ltb 0 bytes_read && ltb 0 buf_addr then dump else []

-- SVC_PEND_READ_BUF: `x0` is the bit pattern of an int64_t.
pub read_text : Host → ℕ → ℕ → Option (List ℕ)
read_text host buf_addr x0 =
    let failed = parts (lit "    => " ∷ lit "-1 (error)\n" ∷ []) in
    let done = parts (
      lit "    => " ∷ uint64_to_dec x0 ∷ lit " bytes\n" ∷ some (read_dump host buf_addr x0) ∷ []) in
    if ltb x0 (2 ^ 63) then done else failed

-- SVC_PEND_GENERIC
pub generic_text : ℕ → Option (List ℕ)
generic_text x0 =
    let negative = parts (lit "    => " ∷ lit "-" ∷ uint64_to_dec (2 ^ 64 - x0) ∷ lit "\n" ∷ []) in
    let positive = parts (lit "    => " ∷ append_hex_val x0 ∷ lit "\n" ∷ []) in
    if ltb x0 (2 ^ 63) then positive else negative

pub pending_text : Host → ℕ → SvcPending → PendingType → Option (List ℕ)
pending_text host x0 p pend_none = some []
pending_text host x0 p pend_fd_open = opened_text (u32 x0)
pending_text host x0 p pend_read_buf = read_text host p.buf_addr x0
pending_text host x0 p pend_generic = generic_text x0

-- `if (fd_tracker && pending->path[0]) fd_tracker->add(fd, pending->path);`, `add` testing the rest.
pub pending_tracker : ℕ → SvcPending → PendingType → Option FdTracker → Option FdTracker
pending_tracker x0 p pend_fd_open tracker = tracker >>= λ table. some (add (u32 x0) p.path table)
pending_tracker x0 p _ tracker = tracker

-- svc_flush_pending(sb, x0, fd_tracker, pending)
pub svc_flush_pending : Host → ℕ → Option FdTracker → Option SvcPending → Option Handled
svc_flush_pending host x0 tracker none =
    some record { text = []; tracker = tracker; pending = none }
svc_flush_pending host x0 tracker (some p) = do
  text ← pending_text host x0 p p.kind
  some record {
    text = text;
    tracker = pending_tracker x0 p p.kind tracker;
    pending = some (record p { kind = pend_none });
  }
