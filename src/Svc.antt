-- ===== src/Svc.antt =====
-- trace/include/svc_handler.h: what is remembered between a system call and its return. `FdTracker` is the
-- table of open files. An `int` is its bit pattern of 32 bits.
pub mod FdTracker
pub mod Names
pub mod Dump
pub mod Cases
pub mod Flags
pub mod Handle
pub mod Pending
mod Runs
use android_prybar.Base.{ℕ, List}

-- SvcPendingType
pub data PendingType : Type 0 where
  pend_none : PendingType
  pend_fd_open : PendingType
  pend_read_buf : PendingType
  pend_generic : PendingType

-- `path` is the text before the terminator.
pub record SvcPending : Type 0 where
  pub kind : PendingType
  pub buf_addr : ℕ
  pub path : List ℕ
