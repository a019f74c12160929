-- ===== src/HostIp.antt =====
-- The choice of the address of the local machine: em_gethostip, em_getipinterface and em_getdefaultipinterface of
-- src/sock_common.c, and em_enum_ip_interface of src/ip_helper_generic.c as it is built without getifaddrs and
-- net/if.h. What the system says of sockets is an argument: the status and the local address when one
-- is connected to an address.
pub mod Choice
pub mod Select
pub mod Candidates
mod Tests
use Prim.Native.Nat.{bit_and}
use emlib.Prelude.{
  ℕ, zero, suc, ◌+◌, ◌-◌, Bool, true, false, not, ◌||◌, ◌&&◌, Option, some, none, List, [], ◌∷◌,
  ◌++◌, Bytes, ltb, leb, ◌==◌, if◌then◌else◌, take, replicate, length, map,
}
use emlib.Prelude.Int.{ℤ, pos, negsuc, ◌+ℤ◌, ◌-ℤ◌, lt_ℤ}
use emlib.Str.{CompareFunction}
use emlib.SockAddr.{
  Net, SockAddr, is_zero, get_addr, get_addr_len, set_port, with_port, cmp, copy_addr,
}
use emlib.AddrParse.{AddrStatus, succ, eafnotsup, eresolve, enotfound, is_empty}
use emlib.AddrParse.Resolve.{Resolver, AddrInfo, is_succ, inet_pton, init, getaddrinfo}

-- What the code asks of the system and of the C library.
pub record Host : Type 0 where
  pub net : Net
  pub resolver : Resolver
  pub memcmp : CompareFunction
  pub hostname : Bytes
  pub local_address : (dst itf : SockAddr) → AddrStatus × SockAddr

-- A variable for an address, with whatever bytes it has.
abbrev pub blank : (af : ℕ) → SockAddr
blank af = record { family = af; port = 0; ipv4 = replicate 4 0; ipv6 = replicate 16 0 }

-- "1.1.1.1" and "1::1"
abbrev pub some_destination : Host → (af : ℕ) → Bytes
some_destination h af =
    if af == h.net.af_inet
    then 49 ∷ (46 ∷ (49 ∷ (46 ∷ (49 ∷ (46 ∷ (49 ∷ []))))))
    else 49 ∷ (58 ∷ (58 ∷ (49 ∷ [])))

-- `em_getipinterface`: the status, the address of the interface, which starts as given, and the address
-- of the destination.
abbrev pub destination : Host → (af : ℕ) → Bytes → (allow_resolve : Bool) → AddrStatus × SockAddr
destination h af dst allow_resolve =
    let (status, zeroed) = init h.net h.resolver af (blank af) [] 53 in
    if is_succ (inet_pton h.net af dst)
    then (succ, zeroed)
    else init h.net h.resolver af zeroed (if allow_resolve then dst else some_destination h af) 53

abbrev pub not_zero : Host → AddrStatus × SockAddr → AddrStatus × SockAddr
not_zero h (status, itf) =
    if is_succ status
      && is_zero (h.memcmp (get_addr h.net itf) (replicate 64 0) (get_addr_len h.net itf))
    then (enotfound, itf)
    else (status, itf)

abbrev pub asked : Host → (itf : SockAddr) → AddrStatus × SockAddr → AddrStatus × SockAddr
asked h itf (status, dst) =
    if is_succ status then not_zero h (h.local_address dst itf) else (status, itf)

abbrev pub getipinterface :
    Host → (af : ℕ) → Bytes → (itf : SockAddr) (allow_resolve : Bool) → AddrStatus × SockAddr
getipinterface h af dst itf allow_resolve = asked h itf (destination h af dst allow_resolve)

abbrev pub getdefaultipinterface : Host → (af : ℕ) → (itf : SockAddr) → AddrStatus × SockAddr
getdefaultipinterface h af itf = getipinterface h af (some_destination h af) itf false

-- `if_enum_by_af` and `em_enum_ip_interface`: the addresses, at most as many as given.
abbrev pub if_succ : AddrStatus × SockAddr → List SockAddr
if_succ (status, itf) = if is_succ status then itf ∷ [] else []

abbrev pub zeroed_addr : SockAddr
zeroed_addr = blank 0

abbrev pub if_enum_by_af : Host → (af p_cnt : ℕ) → List SockAddr
if_enum_by_af h af p_cnt =
    if p_cnt == 0 then [] else if_succ (getdefaultipinterface h af zeroed_addr)

abbrev pub enum_ip_interface : Host → (af p_cnt : ℕ) → List SockAddr
enum_ip_interface h af p_cnt =
    let unspec = af == h.net.af_unspec in
    let six =
      if (af == h.net.af_inet6) || unspec then if_enum_by_af h h.net.af_inet6 p_cnt else [] in
    let four =
      if (af == h.net.af_inet) || unspec
      then if_enum_by_af h h.net.af_inet (p_cnt - length six)
      else [] in
    six ++ four

-- The candidates of `em_gethostip`, at most CAND_CNT, with their weights.
pub record Cand : Type 0 where
  pub addr : SockAddr
  pub weight : ℤ

abbrev pub cand_cnt : ℕ
cand_cnt = 8

abbrev pub weight_hostname : ℤ
weight_hostname = pos 1

abbrev pub weight_def_route : ℤ
weight_def_route = pos 2

abbrev pub weight_interface : ℤ
weight_interface = pos 1

abbrev pub weight_loopback : ℤ
weight_loopback = negsuc 4

abbrev pub weight_link_local : ℤ
weight_link_local = negsuc 3

abbrev pub weight_disabled : ℤ
weight_disabled = negsuc 49

abbrev pub min_weight : ℤ
min_weight = negsuc 48

abbrev pub same : Host → SockAddr → SockAddr → Bool
same h a b = is_zero (cmp h.net h.memcmp a b)

-- The address of the host's name
abbrev pub named_cand : Host → (af : ℕ) → AddrStatus × List AddrInfo → List Cand
named_cand h af (status, []) = []
named_cand h af (status, ai ∷ more) =
    record {
      addr = with_port h.net (copy_addr h.net (blank af) ai.addr) 0;
      weight = weight_hostname;
    }
    ∷ []

abbrev pub hostname_cand : Host → (af : ℕ) → List Cand
hostname_cand h af =
    if is_empty h.hostname
    then []
    else named_cand h af (getaddrinfo h.net h.resolver af h.hostname 1)

-- The default interface adds to the weight of the candidate with its address, or is a new one.
unfoldable pub add_default : Host → (af : ℕ) → SockAddr → List Cand → List Cand
add_default h af a [] =
    record { addr = copy_addr h.net (blank af) a; weight = weight_def_route } ∷ []
add_default h af a (c ∷ cs) =
    let rest = add_default h af a cs in
    if same h c.addr a then record c { weight = c.weight +ℤ weight_def_route } ∷ cs else c ∷ rest

abbrev pub with_default : Host → (af : ℕ) → AddrStatus × SockAddr → List Cand → List Cand × SockAddr
with_default h af (status, itf) cs =
    if is_succ status
    then (add_default h af (with_port h.net itf 0) cs, with_port h.net itf 0)
    else (cs, itf)

-- The interfaces change the weights of the candidates, and those that are none yet are added.
unfoldable pub any_same : (SockAddr → Bool) → List SockAddr → Bool
any_same p [] = false
any_same p (a ∷ more) = p a || any_same p more

abbrev pub weighed : Host → List SockAddr → Cand → Cand
weighed h itfs c = record c {
  weight =
      if any_same (λ a. same h c.addr a) itfs
      then c.weight +ℤ weight_interface
      else c.weight -ℤ weight_interface;
}

unfoldable pub add_rest : Host → List SockAddr → List Cand → List Cand
add_rest h [] cs = cs
add_rest h (a ∷ more) cs = add_rest h more (
    if any_same (λ c. same h a c) (map (λ c. c.addr) cs)
    then cs
    else cs ++ (record { addr = a; weight = weight_interface } ∷ []))

abbrev pub with_interfaces : Host → List SockAddr → List Cand → List Cand
with_interfaces h [] cs = cs
with_interfaces h (a ∷ more) cs =
    let itfs = map (λ i. with_port h.net i 0) (a ∷ more) in
    add_rest h itfs (map (weighed h itfs) cs)
