-- ===== src/Calls/Runs.antt =====
-- Runs of the call log of trace/src/FuncCallTrace.cpp.
use android_prybar.Base.{
  ℕ, ◌-◌, ◌/◌, ◌^◌, ◌<◌, ◌≡◌, refl, inl, inr, true, Option, none, some, List, [], ◌∷◌, arith, ◌==◌,
  if◌then◌else◌, u32, Bool-cases, length, get_or, bytes_of,
}
use android_prybar.HostMemory.{
  read_bytes, safe_host_read, scan, page_remain, read_loop, cstr_chunk, safe_read_cstr,
}
use android_prybar.Regions.{text_eq}
use android_prybar.Svc.FdTracker.{FdTracker, lookup}
use android_prybar.Svc.Handle.{kept_path}
use android_prybar.Calls.{
  pt_str, pt_fd, pt_flags, FuncSig, sig, find_func_sig, pend_none, FuncCallTraceCtx,
}
use android_prybar.Calls.Table.{func_sigs}
use android_prybar.Calls.Format.{Env, is_known_sig_lib}
use android_prybar.Calls.Pending.{strip_chk_wrapper, is_one_of, plan_open, plan_close, plan_of}
use android_prybar.Calls.Emit.{emit_call, emit_return}
use android_prybar.Calls.Tracks.{open_return-tracks, close-forgets}

-- A host with one page mapped, at 0x2000, that begins with a path and is zero behind it.
abbrev path_bytes : List ℕ
path_bytes = bytes_of "/proc/self/maps"

abbrev in_page : ℕ → Option ℕ
in_page a = if a / 4096 == 2 then some (get_or path_bytes (a - 0x2000) 0) else none

in_page_whole :
    (a b c : ℕ) → a / 4096 ≡ b / 4096 → in_page a ≡ some c → (d : ℕ) × (in_page b ≡ some d)
in_page_whole a b c e f = elim (Bool-cases (b / 4096 == 2)) [
  | inl t ↦ (get_or path_bytes (b - 0x2000) 0, rw t)
  | inr t ↦ absurd (cc (rw (e, t) at f))
]

-- A process with no maps, where libc stands from 0x700000 on.
abbrev process : Env
process = record {
  host = record {
    page_size = 4096;
    page_some = omega arith;
    byte = in_page;
    whole_pages = in_page_whole;
  };
  maps = record { generation = 0; lines = some [] };
  sig_libs = (0x700000, 0x800000) ∷ [];
  demangle = λ name. name;
  module_at = λ addr. none;
  symbol_at = λ addr. none;
}

abbrev registers : ℕ → ℕ
registers i = if i == 1 then 0x2000 else if i == 0 then 7 else 0

registers_small : (i : ℕ) → registers i < 2 ^ 64
registers_small i = ground arith

abbrev tracing : FuncCallTraceCtx
tracing = record {
  fd_tracker = some [];
  pending = record { kind = pend_none; arg0 = 0; path = [] };
  snapshot = record { regions = []; built_gen = 0 };
}

abbrev openat_sig : FuncSig
openat_sig =
    sig "openat" 4
      (("dirfd", pt_fd) ∷ ("pathname", pt_str) ∷ ("flags", pt_flags) ∷ ("mode", pt_flags) ∷ [])

openat_found : find_func_sig (bytes_of "openat") func_sigs ≡ some openat_sig
unfolding find_func_sig func_sigs text_eq
openat_found = refl

abbrev close_sig : FuncSig
close_sig = sig "close" 1 (("fd", pt_fd) ∷ [])

close_found : find_func_sig (bytes_of "close") func_sigs ≡ some close_sig
unfolding find_func_sig func_sigs text_eq
close_found = refl

libc_known : is_known_sig_lib 0x700100 process.sig_libs ≡ true
unfolding is_known_sig_lib
libc_known = refl

openat_plan : plan_of (strip_chk_wrapper (bytes_of "openat") 64) (bytes_of "openat") ≡ plan_open 1
unfolding plan_of strip_chk_wrapper is_one_of text_eq
openat_plan = refl

close_plan : plan_of (strip_chk_wrapper (bytes_of "close") 64) (bytes_of "close") ≡ plan_close
unfolding plan_of strip_chk_wrapper is_one_of text_eq
close_plan = refl

path_read : safe_read_cstr process.host (registers 1) 256 ≡ some (some (15, path_bytes))
unfolding safe_read_cstr read_loop safe_host_read read_bytes scan cstr_chunk page_remain
path_read = refl

path_kept : kept_path (some (15, path_bytes)) ≡ path_bytes
unfolding kept_path
path_kept = refl

path_some : 0 < length (kept_path (some (15, path_bytes)))
path_some = rw path_kept (omega arith)

open_return-tracks_example :
    (opening : FuncCallTraceCtx × List ℕ) × (after : FuncCallTraceCtx × List ℕ) × (emit_call process
        0x700100
        (some (bytes_of "openat"))
        registers
        tracing
      ≡ some opening)
    × (emit_return process 42 42 opening.0 ≡ some after)
    × (after.0.pending.kind ≡ pend_none)
    × (table' : FdTracker) × (after.0.fd_tracker ≡ some table')
    × (lookup (u32 42) table' ≡ some (kept_path (some (15, path_bytes))))
    × (lookup 7 table' ≡ lookup 7 [])
open_return-tracks_example =
    open_return-tracks process 0x700100 (bytes_of "openat") openat_sig 1 registers tracing []
      (some (15, path_bytes)) 42 42 registers_small libc_known openat_found openat_plan refl
      path_read path_some (omega arith) (omega arith) 7 (λ e. absurd (omega arith))

close-forgets_example :
    (after : FuncCallTraceCtx × List ℕ) × (table' : FdTracker) × (emit_call process 0x700100
        (some (bytes_of "close"))
        registers
        (record tracing { fd_tracker = some ((7, path_bytes) ∷ []) })
      ≡ some after)
    × (after.0.fd_tracker ≡ some table')
    × (lookup (u32 (registers 0)) table' ≡ none)
close-forgets_example =
    close-forgets process 0x700100 (bytes_of "close") close_sig registers
      (record tracing { fd_tracker = some ((7, path_bytes) ∷ []) }) ((7, path_bytes) ∷ [])
      registers_small libc_known close_found close_plan refl
