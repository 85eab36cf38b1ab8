-- ===== src/Svc/Dump.antt =====
-- The text helpers of trace/src/svc_handler.cpp. What is appended to the string builder is the result;
-- `none` is a number that does not fit its buffer.
pub mod Total
use Prim.Native.String.{String}
use android_prybar.Base.{
  ℕ, ◌+◌, ◌-◌, ◌*◌, ◌^◌, Bool, ◌&&◌, ◌||◌, Option, none, some, List, [], ◌∷◌, ◌++◌, ltb, leb, ◌==◌,
  if◌then◌else◌, ◌>>=◌, negated32, length, take, bytes_of,
}
use android_prybar.Numbers.{uint64_to_hex, uint64_to_dec, byte_to_hex}
use android_prybar.HostMemory.{Host, safe_host_read}
use android_prybar.Svc.FdTracker.{FdTracker, lookup}

-- What a sequence of appends adds.
pub parts : List (Option (List ℕ)) → Option (List ℕ)
parts [] = some []
parts (p ∷ rest) = do text ← p; others ← parts rest; some (text ++ others)

pub lit : String → Option (List ℕ)
lit s = some (bytes_of s)

-- appendHexVal
pub append_hex_val : ℕ → Option (List ℕ)
append_hex_val val = parts (lit "0x" ∷ uint64_to_hex val ∷ [])

-- appendDecVal
pub append_dec_val : ℕ → Option (List ℕ)
append_dec_val val = uint64_to_dec val

-- appendSignedDecVal, on the bit pattern of an int64_t.
pub append_signed_dec_val : ℕ → Option (List ℕ)
append_signed_dec_val val =
    if ltb val (2 ^ 63)
    then append_dec_val val
    else parts (lit "-" ∷ append_dec_val (2 ^ 64 - val) ∷ [])

-- `tracker->lookup(fd)`, or null for a null tracker.
pub tracked : Option FdTracker → ℕ → Option (List ℕ)
tracked none fd = none
tracked (some table) fd = lookup fd table

-- ` ->"path"` where the tracker, if there is one, has a path.
pub path_note : Option FdTracker → ℕ → Option (List ℕ)
path_note tracker fd = elim (tracked tracker fd) as (λ _. Option (List ℕ)) [
  | none ↦ some []
  | some path ↦ parts (lit " ->\"" ∷ some path ∷ lit "\"" ∷ [])
]

-- appendFd, on the bit pattern of an int32_t.
pub append_fd : ℕ → Option FdTracker → Option (List ℕ)
append_fd fd tracker =
    let negative =
      parts (lit "-" ∷ uint64_to_dec (negated32 fd) ∷ path_note tracker (2 ^ 32 - fd) ∷ []) in
    let positive = parts (uint64_to_dec fd ∷ path_note tracker fd ∷ []) in
    if fd == 2 ^ 32 - 100 then lit "AT_FDCWD" else if ltb fd (2 ^ 31) then positive else negative

-- Whether a byte counts as printable.
pub is_text : ℕ → Bool
is_text c = leb 32 c && leb c 126 || c == b'\n' || c == b'\r' || c == b'\t'

pub count_text : List ℕ → ℕ
count_text [] = 0
count_text (c ∷ rest) = let n = count_text rest in if is_text c then n + 1 else n

pub escape : ℕ → List ℕ
escape c =
    if c == b'\n'
    then bytes_of "\\n"
    else if c == b'\r'
    then bytes_of "\\r"
    else if c == b'\t'
    then bytes_of "\\t"
    else if c == b'"'
    then bytes_of "\\\""
    else if leb 32 c && leb c 126
    then c ∷ []
    else bytes_of "."

pub escape_all : List ℕ → List ℕ
escape_all [] = []
escape_all (c ∷ rest) = escape c ++ escape_all rest

-- Two digits for each byte, parted by spaces.
pub hex_bytes : List ℕ → List ℕ
hex_bytes [] = []
hex_bytes (b ∷ []) = byte_to_hex b
hex_bytes (b ∷ c ∷ rest) = byte_to_hex b ++ (b' ' ∷ hex_bytes (c ∷ rest))

-- The lines for `[BUF]`, which svcDumpBuf and svc_flush_pending both print: `got` are the bytes read
-- and `len` is how many there were.
pub buf_text : List ℕ → ℕ → List ℕ
buf_text got len =
    let quoted =
      bytes_of "\""
      ++ (escape_all got ++ ((if ltb 128 len then bytes_of "..." else []) ++ bytes_of "\"\n")) in
    let hex =
      hex_bytes (take 32 got) ++ ((if ltb 32 len then bytes_of " ..." else []) ++ bytes_of "\n") in
    bytes_of "    [BUF] " ++ (if leb (length got * 7) (count_text got * 10) then quoted else hex)

-- svcDumpBuf
pub svc_dump_buf : Host → ℕ → ℕ → List ℕ
svc_dump_buf host addr len =
    let dump_len = if ltb 128 len then 128 else len in
    let dump = elim (safe_host_read host addr dump_len) as (λ _. List ℕ) [
      | none ↦ []
      | some got ↦ buf_text got len
    ] in
    if addr == 0 || ltb addr 0x1000 || len == 0 then [] else dump
