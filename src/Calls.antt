-- ===== src/Calls.antt =====
-- The calls that trace/src/FuncCallTrace.cpp prints: known functions with their arguments, and what is
-- remembered until they return. Text is bytes; `none` is a number that does not fit its buffer.
pub mod Table
pub mod Format
pub mod Pending
pub mod Emit
pub mod Rows
pub mod Chk
pub mod Total
pub mod Returns
pub mod Tracks
mod Runs
use Prim.Native.String.{String}
use android_prybar.Base.{ℕ, Option, none, some, List, [], ◌∷◌, if◌then◌else◌, bytes_of}
use android_prybar.Regions.{text_eq, Snapshot}
use android_prybar.Svc.FdTracker.{FdTracker}

-- ParamType
pub data ParamType : Type 0 where
  pt_int pt_hex pt_str pt_str_addr pt_size pt_fd pt_flags : ParamType

-- FuncSig
pub record FuncSig : Type 0 where
  pub name : List ℕ
  pub param_count : ℕ
  pub params : List (String × ParamType)

abbrev pub sig : String → ℕ → List (String × ParamType) → FuncSig
sig name count params = record { name = bytes_of name; param_count = count; params = params }

-- findFuncSig, on the entries left. The map of the source has one entry for each name.
unfoldable pub find_func_sig : List ℕ → List FuncSig → Option FuncSig
find_func_sig name [] = none
find_func_sig name (s ∷ rest) = if text_eq s.name name then some s else find_func_sig name rest

-- PendingType
pub data PendingType : Type 0 where
  pend_none pend_fd_open pend_read_buf pend_prop_get pend_sprintf pend_fgets pend_getenv :
      PendingType
  pend_dlsym pend_dlopen pend_fopen pend_ret_int pend_ret_hex pend_ret_str : PendingType

-- PendingCall; `path` is what is before its terminator.
pub record PendingCall : Type 0 where
  pub kind : PendingType
  pub arg0 : ℕ
  pub path : List ℕ

-- FuncCallTraceCtx, with the regions that the notes on pointers use.
pub record FuncCallTraceCtx : Type 0 where
  pub fd_tracker : Option FdTracker
  pub pending : PendingCall
  pub snapshot : Snapshot
