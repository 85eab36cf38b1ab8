-- ===== src/Svc/Handle.antt =====
-- svc_handle of trace/src/svc_handler.cpp.
pub mod Total
use android_prybar.Base.{
  ℕ, ◌-◌, ◌^◌, ◌||◌, Option, none, some, List, [], ◌∷◌, ltb, ◌==◌, if◌then◌else◌, ◌>>=◌, u32, take,
  bytes_of,
}
use android_prybar.HostMemory.{Host, safe_read_cstr}
use android_prybar.Svc.{pend_fd_open, pend_read_buf, pend_generic, SvcPending}
use android_prybar.Svc.FdTracker.{FdTracker, remove}
use android_prybar.Svc.Names.{syscall_name}
use android_prybar.Svc.Dump.{
  parts, lit, append_hex_val, append_dec_val, append_signed_dec_val, append_fd, svc_dump_buf,
}
use android_prybar.Svc.Cases.{
  Case, on_openat, on_close, on_read, on_write, on_readlinkat, on_faccessat, on_fchmodat, on_statx,
  on_ioctl, on_mprotect, on_munmap, on_madvise, on_prctl, on_socket, on_connect, on_sendto,
  on_recvfrom, on_tgkill, on_kill, on_rt_sigaction, on_clone, on_execve, on_getcwd, on_getrandom,
  on_lseek, on_mmap, on_fcntl, on_ftruncate, on_newfstatat, on_ppoll, on_futex, on_getdents64,
  case_table, find_case,
}
use android_prybar.Svc.Flags.{
  has_bit, prot_text, map_flags_text, whence_text, fcntl_text, futex_text,
}

-- What is printed for a path argument.
pub path_text : Option (ℕ × List ℕ) → List ℕ
path_text none = bytes_of "(bad ptr)"
path_text (some (plen, text)) = text

-- What is kept of it in `pending->path`, of 256 bytes.
unfoldable pub kept_path : Option (ℕ × List ℕ) → List ℕ
kept_path none = []
kept_path (some (plen, text)) = take (if ltb plen 255 then plen else 255) text

-- `x` are X0 to X5, `path0` and `path1` what safe_read_cstr gives for the pointers in X0 and X1.
pub record Call : Type 0 where
  pub x : ℕ → ℕ
  pub path0 : Option (ℕ × List ℕ)
  pub path1 : Option (ℕ × List ℕ)

module _ (tracker : Option FdTracker) (call : Call) where
  open call use {x, path0, path1}

  pub fd : Option (List ℕ)
  fd = append_fd (u32 (x 0)) tracker

  pub comma : Option (List ℕ)
  comma = lit ", "

  pub hex : ℕ → Option (List ℕ)
  hex i = append_hex_val (x i)

  pub dec : ℕ → Option (List ℕ)
  dec i = append_dec_val (x i)

  -- `fd, "path", `
  pub fd_and_path : Option (List ℕ)
  fd_and_path = parts (fd ∷ lit ", \"" ∷ some (path_text path1) ∷ lit "\", " ∷ [])

  -- The arguments that the cases from `connect` on print.
  pub later_arguments : Case → Option (List ℕ)
  later_arguments on_connect = parts (fd ∷ comma ∷ hex 1 ∷ comma ∷ dec 2 ∷ [])
  later_arguments on_sendto = parts (fd ∷ comma ∷ hex 1 ∷ comma ∷ dec 2 ∷ comma ∷ hex 3 ∷ [])
  later_arguments on_recvfrom = parts (fd ∷ comma ∷ hex 1 ∷ comma ∷ dec 2 ∷ [])
  later_arguments on_tgkill = parts (dec 0 ∷ comma ∷ dec 1 ∷ lit ", sig=" ∷ dec 2 ∷ [])
  later_arguments on_kill = parts (dec 0 ∷ lit ", sig=" ∷ dec 1 ∷ [])
  later_arguments on_rt_sigaction =
      parts (lit "sig=" ∷ dec 0 ∷ lit ", act=" ∷ hex 1 ∷ lit ", oldact=" ∷ hex 2 ∷ [])
  later_arguments on_clone = parts (hex 0 ∷ comma ∷ hex 1 ∷ [])
  later_arguments on_execve =
      parts (lit "\"" ∷ some (path_text path0) ∷ lit "\", " ∷ hex 1 ∷ comma ∷ hex 2 ∷ [])
  later_arguments on_getcwd = parts (hex 0 ∷ comma ∷ dec 1 ∷ [])
  later_arguments on_getrandom = parts (hex 0 ∷ comma ∷ dec 1 ∷ comma ∷ hex 2 ∷ [])
  later_arguments on_lseek =
      parts (fd ∷ comma ∷ append_signed_dec_val (x 1) ∷ comma ∷ whence_text (x 2) ∷ [])
  later_arguments on_mmap =
      let map_fd = append_fd (u32 (x 4)) tracker in
      parts (
        hex 0
        ∷ comma
        ∷ dec 1
        ∷ comma
        ∷ some (prot_text (x 2))
        ∷ comma
        ∷ map_flags_text (x 3)
        ∷ comma
        ∷ (if u32 (x 4) == 2 ^ 32 - 1 then lit "-1" else map_fd)
        ∷ comma
        ∷ hex 5
        ∷ [])
  later_arguments on_fcntl =
      let argument = parts (comma ∷ hex 2 ∷ []) in
      parts
        (fd ∷ comma ∷ fcntl_text (x 1) ∷ (if x 1 == 2 || x 1 == 4 then argument else some []) ∷ [])
  later_arguments on_ftruncate = parts (fd ∷ comma ∷ dec 1 ∷ [])
  later_arguments on_newfstatat = parts (fd_and_path ∷ hex 2 ∷ comma ∷ hex 3 ∷ [])
  later_arguments on_ppoll = parts (hex 0 ∷ comma ∷ dec 1 ∷ comma ∷ hex 2 ∷ [])
  later_arguments on_futex = parts (
      hex 0
      ∷ comma
      ∷ futex_text (x 1)
      ∷ (if has_bit (x 1) 7 then lit "|PRIVATE" else some [])
      ∷ comma
      ∷ dec 2
      ∷ [])
  later_arguments on_getdents64 = parts (fd ∷ comma ∷ hex 1 ∷ comma ∷ dec 2 ∷ [])
  later_arguments _ = parts (hex 0 ∷ comma ∷ hex 1 ∷ comma ∷ hex 2 ∷ comma ∷ hex 3 ∷ [])

  -- The arguments that a case prints.
  pub arguments : Case → Option (List ℕ)
  arguments on_openat = parts (fd_and_path ∷ hex 2 ∷ [])
  arguments on_close = fd
  arguments on_read = parts (fd ∷ comma ∷ hex 1 ∷ comma ∷ dec 2 ∷ [])
  arguments on_write = parts (fd ∷ comma ∷ hex 1 ∷ comma ∷ dec 2 ∷ [])
  arguments on_readlinkat = parts (fd_and_path ∷ hex 2 ∷ comma ∷ dec 3 ∷ [])
  arguments on_faccessat = parts (fd_and_path ∷ dec 2 ∷ [])
  arguments on_fchmodat = parts (fd_and_path ∷ hex 2 ∷ [])
  arguments on_statx = parts (fd_and_path ∷ hex 2 ∷ comma ∷ hex 3 ∷ comma ∷ hex 4 ∷ [])
  arguments on_ioctl = parts (fd ∷ comma ∷ hex 1 ∷ comma ∷ hex 2 ∷ [])
  arguments on_mprotect = parts (hex 0 ∷ comma ∷ dec 1 ∷ comma ∷ hex 2 ∷ [])
  arguments on_munmap = parts (hex 0 ∷ comma ∷ dec 1 ∷ [])
  arguments on_madvise = parts (hex 0 ∷ comma ∷ dec 1 ∷ comma ∷ dec 2 ∷ [])
  arguments on_prctl = parts (dec 0 ∷ comma ∷ hex 1 ∷ comma ∷ hex 2 ∷ comma ∷ hex 3 ∷ [])
  arguments on_socket = parts (dec 0 ∷ comma ∷ dec 1 ∷ comma ∷ dec 2 ∷ [])
  arguments k = later_arguments k

  -- What a case leaves in `*pending`, which it finds with the type SVC_PEND_GENERIC and an empty path.
  pub new_pending : ℕ → Case → SvcPending
  new_pending old_addr on_openat = record {
    kind = pend_fd_open;
    buf_addr = old_addr;
    path = kept_path path1;
  }
  new_pending old_addr on_read = record { kind = pend_read_buf; buf_addr = x 1; path = [] }
  new_pending old_addr on_readlinkat = record { kind = pend_read_buf; buf_addr = x 2; path = [] }
  new_pending old_addr on_recvfrom = record { kind = pend_read_buf; buf_addr = x 1; path = [] }
  new_pending old_addr on_getcwd = record { kind = pend_read_buf; buf_addr = x 0; path = [] }
  new_pending old_addr on_getrandom = record { kind = pend_read_buf; buf_addr = x 0; path = [] }
  new_pending old_addr _ = record { kind = pend_generic; buf_addr = old_addr; path = [] }

  -- What a case leaves of the tracker.
  pub new_tracker : Case → Option FdTracker
  new_tracker on_close = tracker >>= λ table. some (remove (u32 (x 0)) table)
  new_tracker _ = tracker

-- What is printed behind the arguments' line.
pub data_dump : Host → (ℕ → ℕ) → Case → List ℕ
data_dump host x on_write = svc_dump_buf host (x 1) (x 2)
data_dump host x on_sendto = svc_dump_buf host (x 1) (x 2)
data_dump host x _ = []

pub name_text : ℕ → Option (List ℕ)
name_text nr = elim (syscall_name (u32 nr)) as (λ _. Option (List ℕ)) [
  | none ↦ parts (lit "syscall_" ∷ append_dec_val nr ∷ [])
  | some name ↦ lit name
]

-- The text appended, `*fd_tracker` and `*pending`; both pointers may be null.
pub record Handled : Type 0 where
  pub text : List ℕ
  pub tracker : Option FdTracker
  pub pending : Option SvcPending

-- svc_handle(uc, nr, sb, fd_tracker, pending), where `x` are the registers X0 to X5. Strings are read
-- whether or not the case prints one; reading has no effect.
pub svc_handle : Host → (ℕ → ℕ) → ℕ → Option FdTracker → Option SvcPending → Option Handled
svc_handle host x nr tracker pending = do
  path0 ← safe_read_cstr host (x 0) 256
  path1 ← safe_read_cstr host (x 1) 256
  let c = find_case (u32 nr) case_table
  let call : Call = record { x = x; path0 = path0; path1 = path1 }
  text ← parts (
      lit "\n  [SVC] "
      ∷ name_text nr
      ∷ lit "("
      ∷ arguments tracker call c
      ∷ lit ")\n"
      ∷ some (data_dump host x c)
      ∷ [])
  some record {
    text = text;
    tracker = new_tracker tracker call c;
    pending = pending >>= λ p. some (new_pending tracker call p.buf_addr c);
  }
