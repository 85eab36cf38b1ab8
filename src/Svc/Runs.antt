-- ===== src/Svc/Runs.antt =====
-- The handling of system calls at concrete inputs.
use android_prybar.Base.{
  ℕ, ◌-◌, ◌/◌, ◌^◌, ◌<◌, ◌≡◌, refl, inl, inr, Option, none, some, List, [], arith, ◌==◌,
  if◌then◌else◌, Bool-cases, get_or, bytes_of,
}
use android_prybar.HostMemory.{
  Host, read_bytes, safe_host_read, scan, page_remain, read_loop, cstr_chunk, safe_read_cstr,
}
use android_prybar.Svc.{pend_none, pend_fd_open, SvcPending}
use android_prybar.Svc.Handle.{kept_path, Handled}
use android_prybar.Svc.Pending.{svc_flush_pending}
use android_prybar.Svc.Pending.Total.{Settled, svc_flush_pending-Settled, Tracks, openat-Tracks}

-- A host with one page mapped, at 0x2000, that begins with a path and is zero behind it.
abbrev page_bytes : List ℕ
page_bytes = bytes_of "/proc/self/maps"

abbrev in_page : ℕ → Option ℕ
in_page a = if a / 4096 == 2 then some (get_or page_bytes (a - 0x2000) 0) else none

in_page_whole :
    (a b c : ℕ) → a / 4096 ≡ b / 4096 → in_page a ≡ some c → (d : ℕ) × (in_page b ≡ some d)
in_page_whole a b c e f = elim (Bool-cases (b / 4096 == 2)) [
  | inl t ↦ (get_or page_bytes (b - 0x2000) 0, rw t)
  | inr t ↦ absurd (cc (rw (e, t) at f))
]

abbrev one_page : Host
one_page = record {
  page_size = 4096;
  page_some = omega arith;
  byte = in_page;
  whole_pages = in_page_whole;
}

abbrev registers : ℕ → ℕ
registers i = if i == 1 then 0x2000 else if i == 0 then 2 ^ 32 - 100 else 0

registers_small : (i : ℕ) → registers i < 2 ^ 64
registers_small i = ground arith

abbrev nothing_pending : SvcPending
nothing_pending = record { kind = pend_none; buf_addr = 0; path = [] }

maps_read : safe_read_cstr one_page (registers 1) 256 ≡ some (some (15, page_bytes))
unfolding safe_read_cstr read_loop safe_host_read read_bytes scan cstr_chunk page_remain
maps_read = refl

openat-Tracks_example : Tracks one_page registers 42 [] nothing_pending page_bytes
unfolding kept_path
openat-Tracks_example =
    openat-Tracks one_page registers 42 [] nothing_pending 15 page_bytes registers_small
      (omega arith) (omega arith) maps_read (omega arith)

svc_flush_pending-Settled_example :
    (h : Handled) × (svc_flush_pending one_page 42
        (some [])
        (some (record nothing_pending { kind = pend_fd_open; path = page_bytes }))
      ≡ some h)
    × Settled one_page h 43
svc_flush_pending-Settled_example =
    svc_flush_pending-Settled one_page 42 43 (some [])
      (some (record nothing_pending { kind = pend_fd_open; path = page_bytes })) (omega arith)
