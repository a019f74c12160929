-- ===== src/AddrParse.antt =====
-- The texts of socket addresses: parsing and printing in src/sock_common.c, the conversions of addresses
-- in src/sock_bsd.c and the resolution of names in src/addr_resolv_sock.c, as they are built for Linux
-- without IPv6, inet_pton and getaddrinfo. inet_aton, gethostbyname, inet_ntop if the build has it, and what
-- snprintf writes of a number are arguments. A null string is an empty one here, since both take the
-- same branches.
pub mod Resolve
pub mod Colons
pub mod Port
pub mod Hosts
pub mod Printed
pub mod Resolved
mod Tests
use emlib.Prelude.{
  ℕ, zero, suc, ◌+◌, ◌-◌, ◌%◌, ◌/◌, ◌<◌, Bool, true, false, not, ◌||◌, ◌&&◌, Option, some, none,
  List, [], ◌∷◌, ◌++◌, Bytes, leb, ltb, ◌==◌, if◌then◌else◌, take, drop, replicate, length,
}
use emlib.StrNum.{Ctype, strtoul}
use emlib.SockAddr.{Net, SockAddr, get_addr, get_port, set_port}

pub data AddrStatus : Type 0 where
  succ : AddrStatus
  einval : AddrStatus
  eafnotsup : AddrStatus
  eipv6notsup : AddrStatus
  enametoolong : AddrStatus
  eresolve : AddrStatus
  enotfound : AddrStatus
  socket_error : AddrStatus

-- The host part, the port and the family of a text, or an error.
pub data Parse : Type 0 where
  parsed : (host : Bytes) (port family : ℕ) → Parse
  refused : AddrStatus → Parse

abbrev pub colon : ℕ
colon = 58

abbrev pub open_bracket : ℕ
open_bracket = 91

abbrev pub close_bracket : ℕ
close_bracket = 93

-- The first loop of `em_sockaddr_parse2`: how many colons there are, and the index of the last.
unfoldable pub scan_colons : (str : Bytes) (p colon_cnt : ℕ) (last : Option ℕ) → ℕ × Option ℕ
scan_colons [] p colon_cnt last = (colon_cnt, last)
scan_colons (c ∷ cs) p colon_cnt last =
    scan_colons cs (p + 1) (if c == colon then colon_cnt + 1 else colon_cnt)
      (if c == colon then some p else last)

-- The loops that make sure that a port is valid, with what follows them.
unfoldable pub all_digits : Ctype → Bytes → Bool
all_digits ct [] = true
all_digits ct (c ∷ cs) = let rest = all_digits ct cs in if ct.isdigit c then rest else false

abbrev pub parse_port : Ctype → Bytes → Option ℕ
parse_port ct port_part =
    if not (all_digits ct port_part)
    then none
    else if ltb 65535 (strtoul ct port_part)
    then none
    else some (strtoul ct port_part)

abbrev pub with_host : Bytes → ℕ → Option ℕ → Parse
with_host host family none = refused einval
with_host host family (some port) = parsed host port family

-- The branch of IPv4
abbrev pub parse_inet : Ctype → Net → Bytes → (last_colon : Option ℕ) → Parse
parse_inet ct net str none = parsed str 0 net.af_inet
parse_inet ct net str (some i) =
    with_host (take i str) net.af_inet (parse_port ct (drop (i + 1) str))

-- `em_strchr`, as an index
unfoldable pub strchr_from : ℕ → Bytes → ℕ → Option ℕ
strchr_from chr [] i = none
strchr_from chr (c ∷ cs) i =
    let rest = strchr_from chr cs (i + 1) in if c == chr then some i else rest

abbrev pub strchr : Bytes → ℕ → Option ℕ
strchr str chr = strchr_from chr str 0

-- The branch of IPv6
abbrev pub parse_bracketed : Ctype → Net → Bytes → (last_colon end_bracket : Option ℕ) → Parse
parse_bracketed ct net str none e = refused einval
parse_bracketed ct net str (some i) none = refused einval
parse_bracketed ct net str (some i) (some e) =
    with_host (take (e - 1) (drop 1 str)) net.af_inet6
      (parse_port ct (if ltb i e then [] else drop (i + 1) str))

abbrev pub starts_with : ℕ → Bytes → Bool
starts_with chr [] = false
starts_with chr (c ∷ cs) = c == chr

abbrev pub parse_inet6 : Ctype → Net → Bytes → (last_colon : Option ℕ) → Parse
parse_inet6 ct net str last =
    if starts_with open_bracket str
    then parse_bracketed ct net str last (strchr str close_bracket)
    else parsed str 0 net.af_inet6

-- `em_sockaddr_parse2`
abbrev pub is_family : Net → ℕ → Bool
is_family net af = (af == net.af_inet) || (af == net.af_inet6) || (af == net.af_unspec)

abbrev pub is_empty : Bytes → Bool
is_empty [] = true
is_empty (c ∷ cs) = false

abbrev pub deduced : Net → (af colon_cnt : ℕ) → ℕ
deduced net af colon_cnt =
    if af == net.af_unspec then (if ltb 1 colon_cnt then net.af_inet6 else net.af_inet) else af

abbrev pub parse_as : Ctype → Net → (af : ℕ) → Bytes → ℕ × Option ℕ → Parse
parse_as ct net af str (colon_cnt, last) =
    let family = deduced net af colon_cnt in
    if not (af == net.af_unspec) && (af == net.af_inet) && ltb 1 colon_cnt
    then refused einval
    else if family == net.af_inet
    then parse_inet ct net str last
    else if family == net.af_inet6
    then parse_inet6 ct net str last
    else refused eafnotsup

abbrev pub parse2 : Ctype → Net → (af options : ℕ) → Bytes → Parse
parse2 ct net af options str =
    if not (is_family net af && (options == 0))
    then refused einval
    else if is_empty str
    then parsed [] 0 net.af_inet
    else parse_as ct net af str (scan_colons str 0 0 none)

-- `em_inet_ntop`: this build has no inet_ntop, and another may have one; and `em_sockaddr_print`.
abbrev pub inet_ntop :
    Net → (library : Option (ℕ → Bytes → Option Bytes)) → (af : ℕ) → Bytes → Option Bytes
inet_ntop net none af src = none
inet_ntop net (some ntop) af src =
    if (af == net.af_inet) || (af == net.af_inet6) then ntop af src else none

abbrev pub quoted : Bool → Bytes → Bytes
quoted brackets txt = if brackets then (open_bracket ∷ txt) ++ (close_bracket ∷ []) else txt

abbrev pub port_text : Bool → (decimal : ℕ → Bytes) → (port : ℕ) → Bytes
port_text with_port decimal port = if with_port then take 31 (colon ∷ decimal port) else []

abbrev pub printed :
    Option Bytes → (brackets with_port : Bool) (decimal : ℕ → Bytes) (port size : ℕ) → Bytes
printed none brackets with_port decimal port size = []
printed (some txt) brackets with_port decimal port size =
    take (size - 1) (quoted brackets txt ++ port_text with_port decimal port)

abbrev pub print :
    Net
    → (library : Option (ℕ → Bytes → Option Bytes)) (decimal : ℕ → Bytes) → SockAddr
    → (size flags : ℕ) → Bytes
print net library decimal a size flags =
    printed (inet_ntop net library a.family (get_addr net a))
      ((a.family == net.af_inet6) && (flags / 2 % 2 == 1)) (flags % 2 == 1) decimal (get_port net a)
      size
