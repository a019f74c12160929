-- ===== src/Str.antt =====
-- Strings with a length: spans, tokens, comparison, trimming, and bounded copies, of src/string.c and
-- include/em/string_i.h. A string that is only read is the list of its bytes; a target of copies is a
-- record `Str`.
pub mod Span
pub mod Token
pub mod Compare
pub mod Bytewise
pub mod Trim
pub mod Copy
pub mod Search
pub mod First
mod Tests
mod SearchTests
use emlib.Prelude.{
  ℕ, zero, suc, ◌+◌, ◌-◌, Option, none, some, Bool, true, false, ◌&&◌, ◌||◌, List, [], ◌∷◌, ◌++◌,
  Bytes, ltb, leb, ◌==◌, if◌then◌else◌, drop, take, length, mem_write, mem_read,
}
use emlib.Prelude.Int.{ℤ, pos, negsuc}
use emlib.StrNum.{Ctype, strltrim}

-- The inner loop of `em_strspn`: how many characters of the set are c.
abbrev pub occurrences : ℕ → Bytes → ℕ
occurrences c [] = 0
occurrences c (d ∷ set) = if c == d then suc (occurrences c set) else occurrences c set

-- `em_strspn` from index i on.
unfoldable pub strspn_from : Bytes → ℕ → ℕ → Bytes → ℕ
strspn_from set i count [] = count
strspn_from set i count (c ∷ cs) =
    let rest = strspn_from set (i + 1) (count + occurrences c set) cs in
    if count == i then rest else count

abbrev pub strspn : Bytes → Bytes → ℕ
strspn str set = strspn_from set 0 0 str

abbrev pub is_member : ℕ → Bytes → Bool
is_member c [] = false
is_member c (d ∷ set) = (c == d) || is_member c set

-- `em_strcspn` from index i on.
unfoldable pub strcspn_from : Bytes → ℕ → Bytes → ℕ
strcspn_from set i [] = i
strcspn_from set i (c ∷ cs) =
    let rest = strcspn_from set (i + 1) cs in if is_member c set then i else rest

abbrev pub strcspn : Bytes → Bytes → ℕ
strcspn str set = strcspn_from set 0 str

-- The characters before the terminator of a C string.
unfoldable pub until_null : Bytes → Bytes
until_null [] = []
until_null (c ∷ cs) = let rest = until_null cs in if c == 0 then [] else c ∷ rest

-- `em_strspn2` and `em_strcspn2`, whose set ends at its terminator.
abbrev pub strspn2 : Bytes → Bytes → ℕ
strspn2 str set = strspn str (until_null set)

abbrev pub strcspn2 : Bytes → Bytes → ℕ
strcspn2 str set = strcspn str (until_null set)

-- `em_strtok`: the index and the token; `none` if the span goes beyond the end of the string.
abbrev pub token_from : Bytes → Bytes → ℕ → ℕ → Option (ℕ × Bytes)
token_from str delim start idx =
    if start + idx == length str
    then some (length str, drop start str)
    else if ltb (length str) (start + idx)
    then none
    else (let rest = drop (start + idx) str in some (start + idx, take (strcspn rest delim) rest))

unfoldable pub strtok : Bytes → Bytes → ℕ → Option (ℕ × Bytes)
strtok str delim start =
    if length str == 0 || ltb (length str) start
    then some (length str, [])
    else token_from str delim start (strspn (drop start str) delim)

abbrev pub strtok2 : Bytes → Bytes → ℕ → Option (ℕ × Bytes)
strtok2 str delim start = strtok str (until_null delim) start

-- The C library's memcmp and strnicmp on the first n bytes.
abbrev pub CompareFunction : Type 0
CompareFunction = Bytes → Bytes → ℕ → ℤ

-- `em_strcmp`; `em_stricmp` is the same with strnicmp in place of memcmp.
abbrev pub by_length : ℕ → ℕ → ℤ
by_length m n = if ltb m n then negsuc 0 else if m == n then pos 0 else pos 1

abbrev pub zero_or : ℤ → ℤ → ℤ
zero_or (pos zero) other = other
zero_or (pos (suc n)) other = pos (suc n)
zero_or (negsuc n) other = negsuc n

abbrev pub compare_with : CompareFunction → Bytes → Bytes → ℤ
compare_with compare s t =
    let min = if ltb (length s) (length t) then length s else length t in
    if length s == 0
    then (if length t == 0 then pos 0 else negsuc 0)
    else if length t == 0
    then pos 1
    else zero_or (compare s t min) (by_length (length s) (length t))

abbrev pub strcmp : CompareFunction → Bytes → Bytes → ℤ
strcmp memcmp s t = compare_with memcmp s t

abbrev pub stricmp : CompareFunction → Bytes → Bytes → ℤ
stricmp strnicmp s t = compare_with strnicmp s t

-- `em_strncmp`, with the lengths cut to len, and `em_strnicmp`
abbrev pub cut : Bytes → ℕ → Bytes
cut s len = if ltb len (length s) then take len s else s

abbrev pub strncmp : CompareFunction → Bytes → Bytes → ℕ → ℤ
strncmp memcmp s t len = strcmp memcmp (cut s len) (cut t len)

abbrev pub strnicmp : CompareFunction → Bytes → Bytes → ℕ → ℤ
strnicmp compare s t len = stricmp compare (cut s len) (cut t len)

-- The second string as a C string, or a null pointer: `em_strcmp2`, `em_strncmp2` and the two that
-- ignore case.
abbrev pub c_content : Option Bytes → Bytes
c_content none = []
c_content (some s) = until_null s

abbrev pub strcmp2 : CompareFunction → Bytes → Option Bytes → ℤ
strcmp2 memcmp s t = strcmp memcmp s (c_content t)

abbrev pub strncmp2 : CompareFunction → Bytes → Option Bytes → ℕ → ℤ
strncmp2 memcmp s t len = strncmp memcmp s (c_content t) len

abbrev pub stricmp2 : CompareFunction → Bytes → Option Bytes → ℤ
stricmp2 strnicmp s t = stricmp strnicmp s (c_content t)

abbrev pub strnicmp2 : CompareFunction → Bytes → Option Bytes → ℕ → ℤ
strnicmp2 compare s t len = strnicmp compare s (c_content t) len

-- `em_strrtrim`: how many of the first k bytes are left.
abbrev pub byte_at : Bytes → ℕ → ℕ
byte_at [] k = 0
byte_at (c ∷ cs) zero = c
byte_at (c ∷ cs) (suc k) = byte_at cs k

unfoldable pub rtrim_length : Ctype → Bytes → ℕ → ℕ
rtrim_length ct str zero = zero
rtrim_length ct str (suc k) =
    let rest = rtrim_length ct str k in if ct.isspace (byte_at str k) then rest else suc k

abbrev pub strrtrim : Ctype → Bytes → Bytes
strrtrim ct str = take (rtrim_length ct str (length str)) str

abbrev pub strtrim : Ctype → Bytes → Bytes
strtrim ct str = strrtrim ct (strltrim ct str)

-- `em_str_t` with the memory at `ptr`.
pub record Str : Type 0 where
  pub mem : Bytes
  pub slen : ℕ
  pub blen : ℕ

abbrev pub content : Str → Bytes
content s = take s.slen s.mem

-- What a copy does: it returns NULL and changes nothing; it accesses memory out of bounds; or it
-- leaves the target so.
pub data Copied : Type 0 where
  refused : Copied
  undefined : Copied
  done : Str → Copied

abbrev pub after_write : Str → ℕ → Option Bytes → Copied
after_write dst slen none = undefined
after_write dst slen (some mem) = done (record dst { mem = mem; slen = slen })

-- `em_strcpy`, with the bytes of the source
abbrev pub strcpy : Str → Bytes → Copied
strcpy dst src =
    if ltb dst.blen (length src)
    then refused
    else after_write dst (length src) (mem_write dst.mem 0 src)

-- `em_strcpy2`, with the memory of a C string or a null pointer: it copies `slen` bytes of the target.
abbrev pub after_read : Str → ℕ → Option Bytes → Copied
after_read dst slen none = undefined
after_read dst slen (some bytes) = after_write dst slen (mem_write dst.mem 0 bytes)

abbrev pub memory_of : Option Bytes → Bytes
memory_of none = []
memory_of (some s) = s

abbrev pub strcpy2 : Str → Option Bytes → Copied
strcpy2 dst src =
    let len = length (c_content src) in
    if ltb dst.blen len
    then refused
    else if len == 0
    then done dst
    else after_read dst len (mem_read (memory_of src) 0 dst.slen)

-- `em_strncpy`
abbrev pub strncpy : Str → Bytes → ℕ → Copied
strncpy dst src max =
    let n = if ltb (length src) max then length src else max in
    if ltb dst.blen n then refused else after_write dst n (mem_write dst.mem 0 (take n src))

-- `em_strncpy_with_null`: with max = 0 the length copied is -1.
abbrev pub strncpy_with_null : Str → Bytes → ℕ → Copied
strncpy_with_null dst src max =
    let n = if leb max (length src) then max - 1 else length src in
    if max == 0
    then undefined
    else if ltb dst.blen n
    then refused
    else after_write dst n (mem_write dst.mem 0 (take n src ++ (0 ∷ [])))

-- `em_strcat`
abbrev pub strcat : Str → Bytes → Copied
strcat dst src =
    if ltb dst.blen (dst.slen + length src)
    then refused
    else after_write dst (dst.slen + length src) (mem_write dst.mem dst.slen src)

-- `em_strcat2`, whose assertion does not return
abbrev pub strcat2 : Str → Option Bytes → Copied
strcat2 dst str =
    let src = c_content str in
    after_write dst (dst.slen + length src) (mem_write dst.mem dst.slen src)
