-- ===== src/Calls/Table.antt =====
-- The signatures of trace/src/FuncCallTrace.cpp.
use android_prybar.Base.{List, [], ◌∷◌}
use android_prybar.Calls.{
  pt_int, pt_hex, pt_str, pt_str_addr, pt_size, pt_fd, pt_flags, FuncSig, sig,
}

-- g_func_sigs
unfoldable pub func_sigs : List FuncSig
func_sigs =
    sig "strlen" 1 (("s", pt_str_addr) ∷ [])
    ∷ sig "strcmp" 2 (("s1", pt_str) ∷ ("s2", pt_str) ∷ [])
    ∷ sig "strncmp" 3 (("s1", pt_str) ∷ ("s2", pt_str) ∷ ("n", pt_size) ∷ [])
    ∷ sig "strcpy" 2 (("dst", pt_hex) ∷ ("src", pt_str) ∷ [])
    ∷ sig "strncpy" 3 (("dst", pt_hex) ∷ ("src", pt_str) ∷ ("n", pt_size) ∷ [])
    ∷ sig "strstr" 2 (("haystack", pt_str) ∷ ("needle", pt_str) ∷ [])
    ∷ sig "strchr" 2 (("s", pt_str) ∷ ("c", pt_int) ∷ [])
    ∷ sig "strrchr" 2 (("s", pt_str) ∷ ("c", pt_int) ∷ [])
    ∷ sig "strcat" 2 (("dst", pt_hex) ∷ ("src", pt_str) ∷ [])
    ∷ sig "strncat" 3 (("dst", pt_hex) ∷ ("src", pt_str) ∷ ("n", pt_size) ∷ [])
    ∷ sig "strdup" 1 (("s", pt_str) ∷ [])
    ∷ sig "strtok" 2 (("s", pt_str) ∷ ("delim", pt_str) ∷ [])
    ∷ sig "strerror" 1 (("errnum", pt_int) ∷ [])
    ∷ sig "strtol" 3 (("nptr", pt_str) ∷ ("endptr", pt_hex) ∷ ("base", pt_int) ∷ [])
    ∷ sig "strtoul" 3 (("nptr", pt_str) ∷ ("endptr", pt_hex) ∷ ("base", pt_int) ∷ [])
    ∷ sig "__strlen_chk" 2 (("s", pt_str_addr) ∷ ("bufsize", pt_hex) ∷ [])
    ∷ sig "__strcpy_chk" 3 (("dst", pt_hex) ∷ ("src", pt_str) ∷ ("bufsize", pt_hex) ∷ [])
    ∷ sig "__strncpy_chk" 4
        (("dst", pt_hex) ∷ ("src", pt_str) ∷ ("n", pt_size) ∷ ("bufsize", pt_hex) ∷ [])
    ∷ sig "__strcat_chk" 3 (("dst", pt_hex) ∷ ("src", pt_str) ∷ ("bufsize", pt_hex) ∷ [])
    ∷ sig "__strncat_chk" 4
        (("dst", pt_hex) ∷ ("src", pt_str) ∷ ("n", pt_size) ∷ ("bufsize", pt_hex) ∷ [])
    ∷ sig "__strlcpy_chk" 4
        (("dst", pt_hex) ∷ ("src", pt_str) ∷ ("n", pt_size) ∷ ("bufsize", pt_hex) ∷ [])
    ∷ sig "__strlcat_chk" 4
        (("dst", pt_hex) ∷ ("src", pt_str) ∷ ("n", pt_size) ∷ ("bufsize", pt_hex) ∷ [])
    ∷ sig "memcpy" 3 (("dst", pt_hex) ∷ ("src", pt_hex) ∷ ("n", pt_size) ∷ [])
    ∷ sig "memmove" 3 (("dst", pt_hex) ∷ ("src", pt_hex) ∷ ("n", pt_size) ∷ [])
    ∷ sig "memset" 3 (("s", pt_hex) ∷ ("c", pt_int) ∷ ("n", pt_size) ∷ [])
    ∷ sig "memcmp" 3 (("s1", pt_hex) ∷ ("s2", pt_hex) ∷ ("n", pt_size) ∷ [])
    ∷ sig "__memcpy_chk" 4
        (("dst", pt_hex) ∷ ("src", pt_hex) ∷ ("n", pt_size) ∷ ("bufsize", pt_hex) ∷ [])
    ∷ sig "__memmove_chk" 4
        (("dst", pt_hex) ∷ ("src", pt_hex) ∷ ("n", pt_size) ∷ ("bufsize", pt_hex) ∷ [])
    ∷ sig "__memset_chk" 4
        (("s", pt_hex) ∷ ("c", pt_int) ∷ ("n", pt_size) ∷ ("bufsize", pt_hex) ∷ [])
    ∷ sig "mmap" 6 (
        ("addr", pt_hex)
        ∷ ("length", pt_size)
        ∷ ("prot", pt_flags)
        ∷ ("flags", pt_flags)
        ∷ ("fd", pt_fd)
        ∷ ("offset", pt_hex)
        ∷ [])
    ∷ sig "mmap64" 6 (
        ("addr", pt_hex)
        ∷ ("length", pt_size)
        ∷ ("prot", pt_flags)
        ∷ ("flags", pt_flags)
        ∷ ("fd", pt_fd)
        ∷ ("offset", pt_hex)
        ∷ [])
    ∷ sig "munmap" 2 (("addr", pt_hex) ∷ ("length", pt_size) ∷ [])
    ∷ sig "mprotect" 3 (("addr", pt_hex) ∷ ("len", pt_size) ∷ ("prot", pt_flags) ∷ [])
    ∷ sig "malloc" 1 (("size", pt_size) ∷ [])
    ∷ sig "calloc" 2 (("nmemb", pt_size) ∷ ("size", pt_size) ∷ [])
    ∷ sig "realloc" 2 (("ptr", pt_hex) ∷ ("size", pt_size) ∷ [])
    ∷ sig "free" 1 (("ptr", pt_hex) ∷ [])
    ∷ sig "memalign" 2 (("alignment", pt_size) ∷ ("size", pt_size) ∷ [])
    ∷ sig "open" 3 (("pathname", pt_str) ∷ ("flags", pt_flags) ∷ ("mode", pt_flags) ∷ [])
    ∷ sig "openat" 4
        (("dirfd", pt_fd) ∷ ("pathname", pt_str) ∷ ("flags", pt_flags) ∷ ("mode", pt_flags) ∷ [])
    ∷ sig "close" 1 (("fd", pt_fd) ∷ [])
    ∷ sig "read" 3 (("fd", pt_fd) ∷ ("buf", pt_hex) ∷ ("count", pt_size) ∷ [])
    ∷ sig "write" 3 (("fd", pt_fd) ∷ ("buf", pt_hex) ∷ ("count", pt_size) ∷ [])
    ∷ sig "pread64" 4
        (("fd", pt_fd) ∷ ("buf", pt_hex) ∷ ("count", pt_size) ∷ ("offset", pt_int) ∷ [])
    ∷ sig "pwrite64" 4
        (("fd", pt_fd) ∷ ("buf", pt_hex) ∷ ("count", pt_size) ∷ ("offset", pt_int) ∷ [])
    ∷ sig "lseek" 3 (("fd", pt_fd) ∷ ("offset", pt_int) ∷ ("whence", pt_int) ∷ [])
    ∷ sig "fopen" 2 (("filename", pt_str) ∷ ("mode", pt_str) ∷ [])
    ∷ sig "fclose" 1 (("stream", pt_hex) ∷ [])
    ∷ sig "fread" 4
        (("ptr", pt_hex) ∷ ("size", pt_size) ∷ ("nmemb", pt_size) ∷ ("stream", pt_hex) ∷ [])
    ∷ sig "fwrite" 4
        (("ptr", pt_hex) ∷ ("size", pt_size) ∷ ("nmemb", pt_size) ∷ ("stream", pt_hex) ∷ [])
    ∷ sig "fgets" 3 (("s", pt_hex) ∷ ("size", pt_int) ∷ ("stream", pt_hex) ∷ [])
    ∷ sig "fputs" 2 (("s", pt_str) ∷ ("stream", pt_hex) ∷ [])
    ∷ sig "fflush" 1 (("stream", pt_hex) ∷ [])
    ∷ sig "stat" 2 (("pathname", pt_str) ∷ ("statbuf", pt_hex) ∷ [])
    ∷ sig "fstat" 2 (("fd", pt_fd) ∷ ("statbuf", pt_hex) ∷ [])
    ∷ sig "access" 2 (("pathname", pt_str) ∷ ("mode", pt_int) ∷ [])
    ∷ sig "unlink" 1 (("pathname", pt_str) ∷ [])
    ∷ sig "rename" 2 (("oldpath", pt_str) ∷ ("newpath", pt_str) ∷ [])
    ∷ sig "mkdir" 2 (("pathname", pt_str) ∷ ("mode", pt_flags) ∷ [])
    ∷ sig "printf" 1 (("format", pt_str) ∷ [])
    ∷ sig "sprintf" 2 (("str", pt_hex) ∷ ("format", pt_str) ∷ [])
    ∷ sig "snprintf" 3 (("str", pt_hex) ∷ ("size", pt_size) ∷ ("format", pt_str) ∷ [])
    ∷ sig "fprintf" 2 (("stream", pt_hex) ∷ ("format", pt_str) ∷ [])
    ∷ sig "puts" 1 (("s", pt_str) ∷ [])
    ∷ sig "__sprintf_chk" 4
        (("str", pt_hex) ∷ ("flag", pt_int) ∷ ("slen", pt_size) ∷ ("format", pt_str) ∷ [])
    ∷ sig "__snprintf_chk" 5 (
        ("str", pt_hex)
        ∷ ("size", pt_size)
        ∷ ("flag", pt_int)
        ∷ ("slen", pt_size)
        ∷ ("format", pt_str)
        ∷ [])
    ∷ sig "__vsnprintf_chk" 5 (
        ("str", pt_hex)
        ∷ ("size", pt_size)
        ∷ ("flag", pt_int)
        ∷ ("slen", pt_size)
        ∷ ("format", pt_str)
        ∷ [])
    ∷ sig "dlopen" 2 (("filename", pt_str) ∷ ("flags", pt_flags) ∷ [])
    ∷ sig "dlsym" 2 (("handle", pt_hex) ∷ ("symbol", pt_str) ∷ [])
    ∷ sig "dlclose" 1 (("handle", pt_hex) ∷ [])
    ∷ sig "dladdr" 2 (("addr", pt_hex) ∷ ("info", pt_hex) ∷ [])
    ∷ sig "dlerror" 0 []
    ∷ sig "pthread_create" 4
        (("thread", pt_hex) ∷ ("attr", pt_hex) ∷ ("start_routine", pt_hex) ∷ ("arg", pt_hex) ∷ [])
    ∷ sig "pthread_join" 2 (("thread", pt_hex) ∷ ("retval", pt_hex) ∷ [])
    ∷ sig "pthread_mutex_lock" 1 (("mutex", pt_hex) ∷ [])
    ∷ sig "pthread_mutex_unlock" 1 (("mutex", pt_hex) ∷ [])
    ∷ sig "pthread_mutex_init" 2 (("mutex", pt_hex) ∷ ("attr", pt_hex) ∷ [])
    ∷ sig "pthread_key_create" 2 (("key", pt_hex) ∷ ("destructor", pt_hex) ∷ [])
    ∷ sig "pthread_setspecific" 2 (("key", pt_int) ∷ ("value", pt_hex) ∷ [])
    ∷ sig "pthread_getspecific" 1 (("key", pt_int) ∷ [])
    ∷ sig "fork" 0 []
    ∷ sig "vfork" 0 []
    ∷ sig "execve" 3 (("pathname", pt_str) ∷ ("argv", pt_hex) ∷ ("envp", pt_hex) ∷ [])
    ∷ sig "exit" 1 (("status", pt_int) ∷ [])
    ∷ sig "_exit" 1 (("status", pt_int) ∷ [])
    ∷ sig "abort" 0 []
    ∷ sig "kill" 2 (("pid", pt_int) ∷ ("sig", pt_int) ∷ [])
    ∷ sig "getpid" 0 []
    ∷ sig "getuid" 0 []
    ∷ sig "getenv" 1 (("name", pt_str) ∷ [])
    ∷ sig "setenv" 3 (("name", pt_str) ∷ ("value", pt_str) ∷ ("overwrite", pt_int) ∷ [])
    ∷ sig "system" 1 (("command", pt_str) ∷ [])
    ∷ sig "atoi" 1 (("nptr", pt_str) ∷ [])
    ∷ sig "atol" 1 (("nptr", pt_str) ∷ [])
    ∷ sig "abs" 1 (("j", pt_int) ∷ [])
    ∷ sig "rand" 0 []
    ∷ sig "srand" 1 (("seed", pt_int) ∷ [])
    ∷ sig "time" 1 (("tloc", pt_hex) ∷ [])
    ∷ sig "sleep" 1 (("seconds", pt_int) ∷ [])
    ∷ sig "usleep" 1 (("usec", pt_int) ∷ [])
    ∷ sig "nanosleep" 2 (("req", pt_hex) ∷ ("rem", pt_hex) ∷ [])
    ∷ sig "ioctl" 3 (("fd", pt_fd) ∷ ("request", pt_hex) ∷ ("arg", pt_hex) ∷ [])
    ∷ sig "prctl" 5 (
        ("option", pt_int)
        ∷ ("arg2", pt_hex)
        ∷ ("arg3", pt_hex)
        ∷ ("arg4", pt_hex)
        ∷ ("arg5", pt_hex)
        ∷ [])
    ∷ sig "madvise" 3 (("addr", pt_hex) ∷ ("length", pt_size) ∷ ("advice", pt_int) ∷ [])
    ∷ sig "__system_property_get" 2 (("name", pt_str) ∷ ("value", pt_hex) ∷ [])
    ∷ sig "__system_property_find" 1 (("name", pt_str) ∷ [])
    ∷ sig "__android_log_print" 3 (("prio", pt_int) ∷ ("tag", pt_str) ∷ ("fmt", pt_str) ∷ [])
    ∷ sig "__android_log_write" 3 (("prio", pt_int) ∷ ("tag", pt_str) ∷ ("text", pt_str) ∷ [])
    ∷ sig "signal" 2 (("signum", pt_int) ∷ ("handler", pt_hex) ∷ [])
    ∷ sig "sigaction" 3 (("signum", pt_int) ∷ ("act", pt_hex) ∷ ("oldact", pt_hex) ∷ [])
    ∷ sig "raise" 1 (("sig", pt_int) ∷ [])
    ∷ []
