-- ===== src/Svc/Pending/Total.antt =====
-- svc_flush_pending of trace/src/svc_handler.cpp, and what a call and its return do to the tracker.
use android_prybar.Base.{
  ℕ, ◌-◌, ◌^◌, ◌<◌, ◌≡◌, refl, inl, inr, Option, none, some, List, [], arith, ltb, u32, negated32,
  ltb_false→le, Bool-cases, length,
}
use android_prybar.HostMemory.{Host, safe_read_cstr}
use android_prybar.Svc.{
  PendingType, pend_none, pend_fd_open, pend_read_buf, pend_generic, SvcPending,
}
use android_prybar.Svc.FdTracker.{FdTracker, add, lookup, lookup-add}
use android_prybar.Svc.Dump.Total.{Gives, Gives-parts, Gives-lit, Gives-dec, Gives-hex_val}
use android_prybar.Svc.Handle.{kept_path, fd, Handled, svc_handle}
use android_prybar.Svc.Handle.Total.{svc_handle_openat}
use android_prybar.Svc.Pending.{
  opened_text, read_dump, read_text, generic_text, pending_text, pending_tracker, svc_flush_pending,
}

opened_text_total : (fd : ℕ) → fd < 2 ^ 32 → Gives (opened_text fd)
unfolding opened_text
opened_text_total fd h = elim (Bool-cases (ltb fd (2 ^ 31))) [
  | inl e ↦
      rw (opened_text, e)
        (Gives-parts _ (Gives-lit "    => fd=", (Gives-dec fd (omega arith), (Gives-lit "\n", tt))))
  | inr e ↦
      rw (opened_text, e)
        (Gives-parts _ (
          Gives-lit "    => fd=",
          (Gives-lit "-", (Gives-dec (negated32 fd) (ground arith), (Gives-lit " (error)\n", tt))),
        ))
]

read_text_total : (host : Host) (addr x0 : ℕ) → x0 < 2 ^ 64 → Gives (read_text host addr x0)
unfolding read_text
read_text_total host addr x0 h = elim (Bool-cases (ltb x0 (2 ^ 63))) [
  | inl e ↦
      rw (read_text, e)
        (Gives-parts _ (
          Gives-lit "    => ",
          (Gives-dec x0 h, (Gives-lit " bytes\n", ((read_dump host addr x0, refl), tt))),
        ))
  | inr e ↦ rw (read_text, e) (Gives-parts _ (Gives-lit "    => ", (Gives-lit "-1 (error)\n", tt)))
]

generic_text_total : (x0 : ℕ) → x0 < 2 ^ 64 → Gives (generic_text x0)
unfolding generic_text
generic_text_total x0 h = elim (Bool-cases (ltb x0 (2 ^ 63))) [
  | inl e ↦
      rw (generic_text, e)
        (Gives-parts _ (Gives-lit "    => ", (Gives-hex_val x0 h, (Gives-lit "\n", tt))))
  | inr e ↦
      rw (generic_text, e)
        (Gives-parts _ (
          Gives-lit "    => ",
          (
            Gives-lit "-",
            (Gives-dec (2 ^ 64 - x0) (omega (arith, ltb_false→le _ _ e)), (Gives-lit "\n", tt)),
          ),
        ))
]

pending_text_total :
    (host : Host) (x0 : ℕ) (p : SvcPending) (kind : PendingType)
    → x0 < 2 ^ 64
    → Gives (pending_text host x0 p kind)
unfolding pending_text
pending_text_total host x0 p pend_none h = ([], refl)
pending_text_total host x0 p pend_fd_open h = opened_text_total (u32 x0) (omega arith)
pending_text_total host x0 p pend_read_buf h = read_text_total host p.buf_addr x0 h
pending_text_total host x0 p pend_generic h = generic_text_total x0 h

-- A flush that returns with `x1` prints nothing and changes nothing.
abbrev pub Settled : Host → Handled → ℕ → Type 0
Settled host h x1 =
    svc_flush_pending host x1 h.tracker h.pending
    ≡ some record { text = []; tracker = h.tracker; pending = h.pending }

-- With a 64-bit return value, svc_flush_pending gives a result, and after it a second flush, whatever
-- it returns with, prints nothing and changes nothing.
pub svc_flush_pending-Settled :
    (host : Host) (x0 x1 : ℕ) (tracker : Option FdTracker) (pending : Option SvcPending)
    → x0 < 2 ^ 64
    → (h : Handled) × (svc_flush_pending host x0 tracker pending ≡ some h) × Settled host h x1
unfolding svc_flush_pending pending_text pending_tracker
svc_flush_pending-Settled host x0 x1 tracker none h =
    (record { text = []; tracker = tracker; pending = none }, refl, refl)
svc_flush_pending-Settled host x0 x1 tracker (some p) h =
    let (text, e) = pending_text_total host x0 p p.kind h in
    (
      record {
        text = text;
        tracker = pending_tracker x0 p p.kind tracker;
        pending = some (record p { kind = pend_none });
      },
      rw e,
      refl,
    )

-- What an openat and its return leave: both give a result, and the tracker has the descriptor that
-- was returned under the path that was read.
abbrev pub Tracks : Host → (ℕ → ℕ) → ℕ → FdTracker → SvcPending → List ℕ → Type 0
Tracks host x x0 table p path =
    (h : Handled) × (h' : Handled) × (svc_handle host x 56 (some table) (some p) ≡ some h)
    × (svc_flush_pending host x0 h.tracker h.pending ≡ some h')
    × (h'.tracker ≡ some (add (u32 x0) path table))
    × (lookup (u32 x0) (add (u32 x0) path table) ≡ some path)

pub openat-Tracks :
    (host : Host) (x : ℕ → ℕ) (x0 : ℕ) (table : FdTracker) (p : SvcPending) (n : ℕ) (text : List ℕ)
    → ((i : ℕ) → x i < 2 ^ 64)
    → x0 < 2 ^ 64
    → u32 x0 < 2 ^ 31
    → safe_read_cstr host (x 1) 256 ≡ some (some (n, text))
    → 0 < length (kept_path (some (n, text)))
    → Tracks host x x0 table p (kept_path (some (n, text)))
unfolding svc_flush_pending pending_text pending_tracker
openat-Tracks host x x0 table p n text u h small e l =
    let (printed, e') = svc_handle_openat host x (some table) p (some (n, text)) u e in
    let (answer, e'') = opened_text_total (u32 x0) (omega arith) in
    (
      record {
        text = printed;
        tracker = some table;
        pending = some record {
          kind = pend_fd_open;
          buf_addr = p.buf_addr;
          path = kept_path (some (n, text));
        };
      },
      record {
        text = answer;
        tracker = some (add (u32 x0) (kept_path (some (n, text))) table);
        pending =
            some
              record { kind = pend_none; buf_addr = p.buf_addr; path = kept_path (some (n, text)) };
      },
      e',
      rw e'',
      refl,
      lookup-add (u32 x0) (kept_path (some (n, text))) table small l,
    )
