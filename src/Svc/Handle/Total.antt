-- ===== src/Svc/Handle/Total.antt =====
-- svc_handle of trace/src/svc_handler.cpp always gives a result.
use android_prybar.Base.{
  ℕ, ◌^◌, ◌<◌, ◌≡◌, refl, inl, inr, Option, some, List, [], ◌∷◌, arith, ◌>>=◌, u32, Option-cases,
}
use android_prybar.HostMemory.{Host, safe_read_cstr}
use android_prybar.HostMemory.Text.{safe_read_cstr_ends}
use android_prybar.Svc.{pend_fd_open, pend_generic, SvcPending}
use android_prybar.Svc.FdTracker.{FdTracker, remove}
use android_prybar.Svc.Names.{syscall_name}
use android_prybar.Svc.Dump.{lit, append_hex_val, append_dec_val, append_fd}
use android_prybar.Svc.Dump.Total.{
  Gives, Gives-parts, Gives-lit, Gives-hex_val, Gives-fd, Gives-signed_dec_val, Gives-dec_val,
}
use android_prybar.Svc.Handle.{
  kept_path, Call, fd, comma, hex, dec, fd_and_path, later_arguments, arguments, new_pending,
  new_tracker, data_dump, name_text, Handled, svc_handle,
}
use android_prybar.Svc.Cases.{
  Case, on_openat, on_close, on_read, on_write, on_readlinkat, on_faccessat, on_fchmodat, on_statx,
  on_ioctl, on_mprotect, on_munmap, on_madvise, on_prctl, on_socket, on_connect, on_sendto,
  on_recvfrom, on_tgkill, on_kill, on_rt_sigaction, on_clone, on_execve, on_getcwd, on_getrandom,
  on_lseek, on_mmap, on_fcntl, on_ftruncate, on_newfstatat, on_ppoll, on_futex, on_getdents64,
  on_default, case_table, find_case,
}
use android_prybar.Svc.Flags.Total.{
  Gives-if, Gives-whence, Gives-map_flags, Gives-fcntl, Gives-futex,
}

Gives-name : (nr : ℕ) → nr < 2 ^ 64 → Gives (name_text nr)
unfolding name_text
Gives-name nr h = elim (Option-cases (syscall_name (u32 nr))) [
  | inl e ↦ rw (name_text, e) (Gives-parts _ (Gives-lit "syscall_", (Gives-dec_val nr h, tt)))
  | inr name ↦ rw (name_text, name.1) (Gives-lit name.0)
]

-- Every case prints its arguments.
Gives-arguments :
    (tracker : Option FdTracker) (call : Call) (k : Case)
    → ((i : ℕ) → call.x i < 2 ^ 64)
    → Gives (arguments tracker call k)
unfolding arguments later_arguments fd comma hex dec fd_and_path
Gives-arguments tracker call k u = go k
  where
    f : Gives (append_fd (u32 (call.x 0)) tracker)
    f = Gives-fd (u32 (call.x 0)) tracker (omega arith)

    c : Gives (lit ", ")
    c = Gives-lit ", "

    h : (i : ℕ) → Gives (append_hex_val (call.x i))
    h i = Gives-hex_val (call.x i) (u i)

    d : (i : ℕ) → Gives (append_dec_val (call.x i))
    d i = Gives-dec_val (call.x i) (u i)

    fp : Gives (fd_and_path tracker call)
    fp = Gives-parts _ (f, (Gives-lit ", \"", ((_, refl), (Gives-lit "\", ", tt))))

    go : (k : Case) → Gives (arguments tracker call k)
    go on_openat = Gives-parts _ (fp, (h 2, tt))
    go on_close = f
    go on_read = Gives-parts _ (f, (c, (h 1, (c, (d 2, tt)))))
    go on_write = Gives-parts _ (f, (c, (h 1, (c, (d 2, tt)))))
    go on_readlinkat = Gives-parts _ (fp, (h 2, (c, (d 3, tt))))
    go on_faccessat = Gives-parts _ (fp, (d 2, tt))
    go on_fchmodat = Gives-parts _ (fp, (h 2, tt))
    go on_statx = Gives-parts _ (fp, (h 2, (c, (h 3, (c, (h 4, tt))))))
    go on_ioctl = Gives-parts _ (f, (c, (h 1, (c, (h 2, tt)))))
    go on_mprotect = Gives-parts _ (h 0, (c, (d 1, (c, (h 2, tt)))))
    go on_munmap = Gives-parts _ (h 0, (c, (d 1, tt)))
    go on_madvise = Gives-parts _ (h 0, (c, (d 1, (c, (d 2, tt)))))
    go on_prctl = Gives-parts _ (d 0, (c, (h 1, (c, (h 2, (c, (h 3, tt)))))))
    go on_socket = Gives-parts _ (d 0, (c, (d 1, (c, (d 2, tt)))))
    go on_connect = Gives-parts _ (f, (c, (h 1, (c, (d 2, tt)))))
    go on_sendto = Gives-parts _ (f, (c, (h 1, (c, (d 2, (c, (h 3, tt)))))))
    go on_recvfrom = Gives-parts _ (f, (c, (h 1, (c, (d 2, tt)))))
    go on_tgkill = Gives-parts _ (d 0, (c, (d 1, (Gives-lit ", sig=", (d 2, tt)))))
    go on_kill = Gives-parts _ (d 0, (Gives-lit ", sig=", (d 1, tt)))
    go on_rt_sigaction =
        Gives-parts _
          (Gives-lit "sig=", (d 0, (Gives-lit ", act=", (h 1, (Gives-lit ", oldact=", (h 2, tt))))))
    go on_clone = Gives-parts _ (h 0, (c, (h 1, tt)))
    go on_execve =
        Gives-parts _ (Gives-lit "\"", ((_, refl), (Gives-lit "\", ", (h 1, (c, (h 2, tt))))))
    go on_getcwd = Gives-parts _ (h 0, (c, (d 1, tt)))
    go on_getrandom = Gives-parts _ (h 0, (c, (d 1, (c, (h 2, tt)))))
    go on_lseek =
        Gives-parts _ (
          f,
          (c, (Gives-signed_dec_val (call.x 1) (u 1), (c, (Gives-whence (call.x 2) (u 2), tt)))),
        )
    go on_mmap = Gives-parts _ (
      h 0,
      (
        c,
        (
          d 1,
          (
            c,
            (
              (_, refl),
              (
                c,
                (
                  Gives-map_flags (call.x 3) (u 3),
                  (
                    c,
                    (
                      Gives-if _ _ _ (Gives-lit "-1")
                          (Gives-fd (u32 (call.x 4)) tracker (omega arith)),
                      (c, (h 5, tt)),
                    ),
                  ),
                ),
              ),
            ),
          ),
        ),
      ),
    )
    go on_fcntl = Gives-parts _ (
      f,
      (
        c,
        (
          Gives-fcntl (call.x 1) (u 1),
          (Gives-if _ _ _ (Gives-parts _ (c, (h 2, tt))) ([], refl), tt),
        ),
      ),
    )
    go on_ftruncate = Gives-parts _ (f, (c, (d 1, tt)))
    go on_newfstatat = Gives-parts _ (fp, (h 2, (c, (h 3, tt))))
    go on_ppoll = Gives-parts _ (h 0, (c, (d 1, (c, (h 2, tt)))))
    go on_futex = Gives-parts _ (
      h 0,
      (
        c,
        (
          Gives-futex (call.x 1) (u 1),
          (Gives-if _ _ _ (Gives-lit "|PRIVATE") ([], refl), (c, (d 2, tt))),
        ),
      ),
    )
    go on_getdents64 = Gives-parts _ (f, (c, (h 1, (c, (d 2, tt)))))
    go on_default = Gives-parts _ (h 0, (c, (h 1, (c, (h 2, (c, (h 3, tt)))))))

-- What svc_handle gives when the string that X1 points to reads as `path1`.
pub svc_handle_result :
    (host : Host) (x : ℕ → ℕ) (nr : ℕ) (tracker : Option FdTracker) (pending : Option SvcPending)
    (path1 : Option (ℕ × List ℕ))
    → ((i : ℕ) → x i < 2 ^ 64)
    → nr < 2 ^ 64
    → safe_read_cstr host (x 1) 256 ≡ some path1
    → (text : List ℕ) × (path0 : Option (ℕ × List ℕ)) × (svc_handle host x nr tracker pending ≡ (
        let k = find_case (u32 nr) case_table in
        let call : Call = record { x = x; path0 = path0; path1 = path1 } in
        some record {
          text = text;
          tracker = new_tracker tracker call k;
          pending = pending >>= λ p. some (new_pending tracker call p.buf_addr k);
        }))
unfolding svc_handle
svc_handle_result host x nr tracker pending path1 u n e1 =
    let (path0, e0) = safe_read_cstr_ends host (x 0) 256 in
    let k = find_case (u32 nr) case_table in
    let call : Call = record { x = x; path0 = path0; path1 = path1 } in
    let (text, e) =
      Gives-parts
        (lit "\n  [SVC] "
          ∷ name_text nr
          ∷ lit "("
          ∷ arguments tracker call k
          ∷ lit ")\n"
          ∷ some (data_dump host x k)
          ∷ [])
        (
          Gives-lit "\n  [SVC] ",
          (
            Gives-name nr n,
            (
              Gives-lit "(",
              (
                Gives-arguments tracker call k u,
                (Gives-lit ")\n", ((data_dump host x k, refl), tt)),
              ),
            ),
          ),
        ) in
    (text, path0, rw (e0, e1, e))

-- With 64-bit registers, svc_handle ends and gives a result for every system call, whatever memory can
-- be read, with a tracker and a pending record or without.
pub svc_handle_total :
    (host : Host) (x : ℕ → ℕ) (nr : ℕ) (tracker : Option FdTracker) (pending : Option SvcPending)
    → ((i : ℕ) → x i < 2 ^ 64)
    → nr < 2 ^ 64
    → (h : Handled) × (svc_handle host x nr tracker pending ≡ some h)
svc_handle_total host x nr tracker pending u n =
    let (path1, e1) = safe_read_cstr_ends host (x 1) 256 in
    let (text, path0, e) = svc_handle_result host x nr tracker pending path1 u n e1 in (_, e)

-- An openat leaves the tracker alone and keeps the path for the return.
pub svc_handle_openat :
    (host : Host) (x : ℕ → ℕ) (tracker : Option FdTracker) (p : SvcPending)
    (path1 : Option (ℕ × List ℕ))
    → ((i : ℕ) → x i < 2 ^ 64)
    → safe_read_cstr host (x 1) 256 ≡ some path1
    → (text : List ℕ) × (svc_handle host x 56 tracker (some p)
        ≡ some record {
          text = text;
          tracker = tracker;
          pending =
              some record { kind = pend_fd_open; buf_addr = p.buf_addr; path = kept_path path1 };
        })
unfolding new_tracker new_pending find_case case_table
svc_handle_openat host x tracker p path1 u e1 =
    let (text, path0, e) = svc_handle_result host x 56 tracker (some p) path1 u (omega arith) e1 in
    (text, e)

-- A close takes the descriptor out of the tracker.
pub svc_handle_close :
    (host : Host) (x : ℕ → ℕ) (table : FdTracker) (p : SvcPending)
    → ((i : ℕ) → x i < 2 ^ 64)
    → (text : List ℕ) × (svc_handle host x 57 (some table) (some p)
        ≡ some record {
          text = text;
          tracker = some (remove (u32 (x 0)) table);
          pending = some record { kind = pend_generic; buf_addr = p.buf_addr; path = [] };
        })
unfolding new_tracker new_pending find_case case_table
svc_handle_close host x table p u =
    let (path1, e1) = safe_read_cstr_ends host (x 1) 256 in
    let (text, path0, e) =
      svc_handle_result host x 57 (some table) (some p) path1 u (omega arith) e1 in
    (text, e)
