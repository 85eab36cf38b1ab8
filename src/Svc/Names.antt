-- ===== src/Svc/Names.antt =====
-- The names of system calls in trace/src/svc_handler.cpp. The `__NR_` constants are Linux's for arm64.
use Prim.Native.String.{String}
use android_prybar.Base.{ℕ, Option, none, some, List, [], ◌∷◌, ◌==◌, if◌then◌else◌}

-- syscall_table
unfoldable pub syscall_table : List (ℕ × String)
syscall_table =
    (0, "io_setup")
    ∷ (1, "io_destroy")
    ∷ (2, "io_submit")
    ∷ (3, "io_cancel")
    ∷ (4, "io_getevents")
    ∷ (5, "setxattr")
    ∷ (8, "getxattr")
    ∷ (11, "listxattr")
    ∷ (14, "removexattr")
    ∷ (17, "getcwd")
    ∷ (19, "eventfd2")
    ∷ (20, "epoll_create1")
    ∷ (21, "epoll_ctl")
    ∷ (22, "epoll_pwait")
    ∷ (23, "dup")
    ∷ (24, "dup3")
    ∷ (26, "inotify_init1")
    ∷ (27, "inotify_add_watch")
    ∷ (28, "inotify_rm_watch")
    ∷ (29, "ioctl")
    ∷ (32, "flock")
    ∷ (33, "mknodat")
    ∷ (34, "mkdirat")
    ∷ (35, "unlinkat")
    ∷ (36, "symlinkat")
    ∷ (37, "linkat")
    ∷ (38, "renameat")
    ∷ (47, "fallocate")
    ∷ (48, "faccessat")
    ∷ (49, "chdir")
    ∷ (50, "fchdir")
    ∷ (52, "fchmod")
    ∷ (53, "fchmodat")
    ∷ (54, "fchownat")
    ∷ (55, "fchown")
    ∷ (56, "openat")
    ∷ (57, "close")
    ∷ (59, "pipe2")
    ∷ (61, "getdents64")
    ∷ (63, "read")
    ∷ (64, "write")
    ∷ (65, "readv")
    ∷ (66, "writev")
    ∷ (67, "pread64")
    ∷ (68, "pwrite64")
    ∷ (78, "readlinkat")
    ∷ (81, "sync")
    ∷ (82, "fsync")
    ∷ (83, "fdatasync")
    ∷ (98, "futex")
    ∷ (101, "nanosleep")
    ∷ (93, "exit")
    ∷ (94, "exit_group")
    ∷ (96, "set_tid_address")
    ∷ (129, "kill")
    ∷ (130, "tkill")
    ∷ (131, "tgkill")
    ∷ (134, "rt_sigaction")
    ∷ (135, "rt_sigprocmask")
    ∷ (139, "rt_sigreturn")
    ∷ (112, "clock_settime")
    ∷ (113, "clock_gettime")
    ∷ (114, "clock_getres")
    ∷ (115, "clock_nanosleep")
    ∷ (117, "ptrace")
    ∷ (124, "sched_yield")
    ∷ (160, "uname")
    ∷ (163, "getrlimit")
    ∷ (164, "setrlimit")
    ∷ (167, "prctl")
    ∷ (168, "getcpu")
    ∷ (169, "gettimeofday")
    ∷ (172, "getpid")
    ∷ (173, "getppid")
    ∷ (174, "getuid")
    ∷ (175, "geteuid")
    ∷ (176, "getgid")
    ∷ (177, "getegid")
    ∷ (178, "gettid")
    ∷ (179, "sysinfo")
    ∷ (198, "socket")
    ∷ (199, "socketpair")
    ∷ (200, "bind")
    ∷ (201, "listen")
    ∷ (202, "accept")
    ∷ (203, "connect")
    ∷ (204, "getsockname")
    ∷ (205, "getpeername")
    ∷ (206, "sendto")
    ∷ (207, "recvfrom")
    ∷ (208, "setsockopt")
    ∷ (209, "getsockopt")
    ∷ (210, "shutdown")
    ∷ (211, "sendmsg")
    ∷ (212, "recvmsg")
    ∷ (214, "brk")
    ∷ (215, "munmap")
    ∷ (216, "mremap")
    ∷ (220, "clone")
    ∷ (221, "execve")
    ∷ (226, "mprotect")
    ∷ (233, "madvise")
    ∷ (232, "mincore")
    ∷ (228, "mlock")
    ∷ (229, "munlock")
    ∷ (278, "getrandom")
    ∷ (279, "memfd_create")
    ∷ (277, "seccomp")
    ∷ (291, "statx")
    ∷ (435, "clone3")
    ∷ (436, "close_range")
    ∷ (437, "openat2")
    ∷ (439, "faccessat2")
    ∷ (261, "prlimit64")
    ∷ (260, "wait4")
    ∷ (242, "accept4")
    ∷ (62, "lseek")
    ∷ (25, "fcntl")
    ∷ (46, "ftruncate")
    ∷ (73, "ppoll")
    ∷ (79, "newfstatat")
    ∷ (99, "set_robust_list")
    ∷ (132, "sigaltstack")
    ∷ (123, "sched_getaffinity")
    ∷ (122, "sched_setaffinity")
    ∷ (137, "rt_sigtimedwait")
    ∷ (103, "setitimer")
    ∷ (102, "getitimer")
    ∷ (85, "timerfd_create")
    ∷ (86, "timerfd_settime")
    ∷ (87, "timerfd_gettime")
    ∷ (74, "signalfd4")
    ∷ (441, "epoll_pwait2")
    ∷ (35, "unlinkat")
    ∷ (276, "renameat2")
    ∷ (71, "sendfile")
    ∷ (45, "truncate")
    ∷ (34, "mkdirat")
    ∷ (166, "umask")
    ∷ (165, "getrusage")
    ∷ (153, "times")
    ∷ (158, "getgroups")
    ∷ (159, "setgroups")
    ∷ (157, "setsid")
    ∷ (155, "getpgid")
    ∷ (154, "setpgid")
    ∷ (156, "getsid")
    ∷ (145, "setreuid")
    ∷ (143, "setregid")
    ∷ (147, "setresuid")
    ∷ (149, "setresgid")
    ∷ (148, "getresuid")
    ∷ (150, "getresgid")
    ∷ (222, "mmap")
    ∷ []

pub find_name : ℕ → List (ℕ × String) → Option String
find_name nr [] = none
find_name nr ((n, name) ∷ rest) = if n == nr then some name else find_name nr rest

-- syscall_name(nr)
pub syscall_name : ℕ → Option String
syscall_name nr = find_name nr syscall_table
