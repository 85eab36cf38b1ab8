-- ===== src/Svc/Cases.antt =====
-- The switch of svc_handle in trace/src/svc_handler.cpp.
use android_prybar.Base.{ℕ, List, [], ◌∷◌, ◌==◌, if◌then◌else◌}

-- The cases of the switch.
pub data Case : Type 0 where
  on_openat : Case
  on_close : Case
  on_read : Case
  on_write : Case
  on_readlinkat : Case
  on_faccessat : Case
  on_fchmodat : Case
  on_statx : Case
  on_ioctl : Case
  on_mprotect : Case
  on_munmap : Case
  on_madvise : Case
  on_prctl : Case
  on_socket : Case
  on_connect : Case
  on_sendto : Case
  on_recvfrom : Case
  on_tgkill : Case
  on_kill : Case
  on_rt_sigaction : Case
  on_clone : Case
  on_execve : Case
  on_getcwd : Case
  on_getrandom : Case
  on_lseek : Case
  on_mmap : Case
  on_fcntl : Case
  on_ftruncate : Case
  on_newfstatat : Case
  on_ppoll : Case
  on_futex : Case
  on_getdents64 : Case
  on_default : Case

unfoldable pub case_table : List (ℕ × Case)
case_table =
    (56, on_openat)
    ∷ (437, on_openat)
    ∷ (57, on_close)
    ∷ (63, on_read)
    ∷ (67, on_read)
    ∷ (64, on_write)
    ∷ (68, on_write)
    ∷ (78, on_readlinkat)
    ∷ (48, on_faccessat)
    ∷ (439, on_faccessat)
    ∷ (53, on_fchmodat)
    ∷ (54, on_fchmodat)
    ∷ (291, on_statx)
    ∷ (29, on_ioctl)
    ∷ (226, on_mprotect)
    ∷ (215, on_munmap)
    ∷ (233, on_madvise)
    ∷ (167, on_prctl)
    ∷ (198, on_socket)
    ∷ (203, on_connect)
    ∷ (206, on_sendto)
    ∷ (207, on_recvfrom)
    ∷ (131, on_tgkill)
    ∷ (129, on_kill)
    ∷ (130, on_kill)
    ∷ (134, on_rt_sigaction)
    ∷ (220, on_clone)
    ∷ (435, on_clone)
    ∷ (221, on_execve)
    ∷ (17, on_getcwd)
    ∷ (278, on_getrandom)
    ∷ (62, on_lseek)
    ∷ (222, on_mmap)
    ∷ (25, on_fcntl)
    ∷ (46, on_ftruncate)
    ∷ (79, on_newfstatat)
    ∷ (73, on_ppoll)
    ∷ (98, on_futex)
    ∷ (61, on_getdents64)
    ∷ []

unfoldable pub find_case : ℕ → List (ℕ × Case) → Case
find_case nr [] = on_default
find_case nr ((n, c) ∷ rest) = if n == nr then c else find_case nr rest
