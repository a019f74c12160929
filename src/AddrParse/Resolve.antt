-- ===== src/AddrParse/Resolve.antt =====
-- From the text of an address to the address: em_inet_aton, em_inet_pton, em_gethostbyname and em_getaddrinfo,
-- and the functions of src/sock_common.c from em_sockaddr_in_set_str_addr to em_sockaddr_parse that use
-- them.
use emlib.Prelude.{
  ℕ, zero, suc, ◌-◌, Bool, true, false, not, ◌||◌, ◌&&◌, Option, some, none, List, [], ◌∷◌, Bytes,
  leb, ◌==◌, if◌then◌else◌, take, replicate, length,
}
use emlib.StrNum.{Ctype}
use emlib.SockAddr.{Net, SockAddr}
use emlib.AddrParse.{
  AddrStatus, succ, einval, eafnotsup, eipv6notsup, enametoolong, eresolve, enotfound, socket_error,
  Parse, parsed, refused, is_empty, is_family, parse2,
}

-- What the code is given by the C library: an address of four bytes, or a host.
pub record Hostent : Type 0 where
  pub name : Bytes
  pub addr_list : List Bytes

pub record Resolver : Type 0 where
  pub inet_aton : Bytes → Option Bytes
  pub gethostbyname : Bytes → Option Hostent

-- EM_INADDR_NONE; EM_INET_ADDRSTRLEN, EM_INET6_ADDRSTRLEN and EM_MAX_HOSTNAME
abbrev pub inaddr_none : Bytes
inaddr_none = replicate 4 255

abbrev pub inet_addrstrlen : ℕ
inet_addrstrlen = 16

abbrev pub inet6_addrstrlen : ℕ
inet6_addrstrlen = 46

abbrev pub max_hostname : ℕ
max_hostname = 128

-- `em_inet_aton`: the address that it leaves, and `em_inet_addr`.
abbrev pub or_none : Option Bytes → Bytes
or_none none = inaddr_none
or_none (some a) = a

abbrev pub inet_addr : Resolver → Bytes → Bytes
inet_addr sys cp =
    if is_empty cp || leb inet_addrstrlen (length cp)
    then inaddr_none
    else or_none (sys.inet_aton cp)

-- The test for EM_INADDR_NONE
abbrev pub all_255 : Bytes → Bool
all_255 [] = true
all_255 (c ∷ cs) = (c == 255) && all_255 cs

abbrev pub is_succ : AddrStatus → Bool
is_succ succ = true
is_succ einval = false
is_succ eafnotsup = false
is_succ eipv6notsup = false
is_succ enametoolong = false
is_succ eresolve = false
is_succ enotfound = false
is_succ socket_error = false

-- `em_inet_pton`, which knows neither kind of address in this build
abbrev pub inet_pton : Net → (af : ℕ) → Bytes → AddrStatus
inet_pton net af src =
    if not ((af == net.af_inet) || (af == net.af_inet6))
    then eafnotsup
    else if is_empty src
    then einval
    else if leb inet6_addrstrlen (length src)
    then enametoolong
    else eipv6notsup

-- `em_gethostbyname` and `em_getaddrinfo`, for an array of `count` elements
pub record AddrInfo : Type 0 where
  pub canonname : Bytes
  pub addr : SockAddr

abbrev pub found_host : Option Hostent → AddrStatus × Option Hostent
found_host none = (eresolve, none)
found_host (some he) = (succ, some he)

abbrev pub em_gethostbyname : Resolver → Bytes → AddrStatus × Option Hostent
em_gethostbyname sys hostname =
    if leb max_hostname (length hostname)
    then (enametoolong, none)
    else found_host (sys.gethostbyname hostname)

abbrev pub zero_addr : Net → SockAddr
zero_addr net = record {
  family = net.af_inet;
  port = 0;
  ipv4 = replicate 4 0;
  ipv6 = replicate 16 0;
}

unfoldable pub addr_infos : Net → Bytes → List Bytes → (count : ℕ) → List AddrInfo
addr_infos net name [] count = []
addr_infos net name (a ∷ as_left) zero = []
addr_infos net name (a ∷ as_left) (suc count) =
    record { canonname = take (max_hostname - 1) name; addr = record (zero_addr net) { ipv4 = a } }
    ∷ addr_infos net name as_left count

abbrev pub succ_if_some : List AddrInfo → AddrStatus × List AddrInfo
succ_if_some [] = (eresolve, [])
succ_if_some (i ∷ is) = (succ, i ∷ is)

abbrev pub host_infos : Net → ℕ → AddrStatus × Option Hostent → AddrStatus × List AddrInfo
host_infos net count (status, none) = (status, [])
host_infos net count (status, some he) = succ_if_some (addr_infos net he.name he.addr_list count)

abbrev pub getaddrinfo :
    Net → Resolver → (af : ℕ) → Bytes → (count : ℕ) → AddrStatus × List AddrInfo
getaddrinfo net sys af nodename count =
    if count == 0
    then (einval, [])
    else if (af == net.af_inet) || (af == net.af_unspec)
    then host_infos net count (em_gethostbyname sys nodename)
    else (eipv6notsup, [])

-- `em_sockaddr_in_set_str_addr` and the branch for IPv6 of `em_sockaddr_set_str_addr`
abbrev pub take_ipv4 : AddrStatus × List AddrInfo → SockAddr → AddrStatus × SockAddr
take_ipv4 (status, []) addr = (status, addr)
take_ipv4 (status, i ∷ is) addr = (status, record addr { ipv4 = i.addr.ipv4 })

abbrev pub in_set_str_addr : Net → Resolver → SockAddr → Bytes → AddrStatus × SockAddr
in_set_str_addr net sys addr str =
    let named : SockAddr = record addr { family = net.af_inet } in
    let numbers : SockAddr = record named { ipv4 = inet_addr sys str } in
    if leb max_hostname (length str)
    then (einval, record addr { ipv4 = inaddr_none })
    else if is_empty str
    then (succ, record named { ipv4 = replicate 4 0 })
    else if all_255 numbers.ipv4
    then take_ipv4 (getaddrinfo net sys net.af_inet str 1) numbers
    else (succ, numbers)

abbrev pub take_ipv6 : AddrStatus × List AddrInfo → SockAddr → AddrStatus × SockAddr
take_ipv6 (status, []) addr = (status, addr)
take_ipv6 (status, i ∷ is) addr = (status, record addr { ipv6 = i.addr.ipv6 })

abbrev pub set_str_addr : Net → Resolver → (af : ℕ) → SockAddr → Bytes → AddrStatus × SockAddr
set_str_addr net sys af addr str =
    let named : SockAddr = record addr { family = net.af_inet6 } in
    if af == net.af_inet
    then in_set_str_addr net sys addr str
    else if not (af == net.af_inet6)
    then (eafnotsup, addr)
    else if is_empty str
    then (succ, named)
    else if is_succ (inet_pton net af str)
    then (succ, named)
    else take_ipv6 (getaddrinfo net sys net.af_inet6 str 1) named

-- `em_sockaddr_in_init` and `em_sockaddr_init`
abbrev pub in_init : Net → Resolver → SockAddr → Bytes → (port : ℕ) → AddrStatus × SockAddr
in_init net sys addr str port =
    in_set_str_addr net sys (record addr { family = net.af_inet; port = net.htons port }) str

abbrev pub set_port_after : Net → (port : ℕ) → AddrStatus × SockAddr → AddrStatus × SockAddr
set_port_after net port (status, addr) =
    (status, if is_succ status then record addr { port = net.htons port } else addr)

abbrev pub init : Net → Resolver → (af : ℕ) → SockAddr → Bytes → (port : ℕ) → AddrStatus × SockAddr
init net sys af addr cp port =
    let zeroed : SockAddr = record {
      family = net.af_inet6;
      port = 0;
      ipv4 = replicate 4 0;
      ipv6 = replicate 16 0;
    } in
    if af == net.af_inet
    then in_init net sys addr cp port
    else if not (af == net.af_inet6)
    then (eafnotsup, addr)
    else set_port_after net port (set_str_addr net sys af zeroed cp)

-- `em_sockaddr_parse`
abbrev pub init_parsed : Net → Resolver → SockAddr → Parse → AddrStatus × SockAddr
init_parsed net sys addr (refused status) = (status, addr)
init_parsed net sys addr (parsed host port family) =
    if family == net.af_inet6 then (eipv6notsup, addr) else init net sys family addr host port

abbrev pub parse :
    Ctype → Net → Resolver → (af options : ℕ) → Bytes → SockAddr → AddrStatus × SockAddr
parse ct net sys af options str addr =
    if not (is_family net af && (options == 0))
    then (einval, addr)
    else init_parsed net sys addr (parse2 ct net af options str)
