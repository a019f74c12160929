-- ===== src/SockAddr.antt =====
-- Socket addresses and the binding at a random port: the functions of src/sock_common.c on em_sockaddr.
-- The union em_sockaddr is a record with the fields of both kinds of address; an operation uses those
-- of the kind that the family names.
pub mod Order
pub mod Bind
mod Tests
use emlib.Prelude.{
  ℕ, zero, suc, ◌+◌, ◌%◌, Bool, true, false, not, ◌||◌, List, [], ◌∷◌, Bytes, ltb, ◌==◌,
  if◌then◌else◌, replicate,
}
use emlib.Prelude.Int.{ℤ, pos, negsuc}
use emlib.Str.{CompareFunction}

-- The constants of the system and the conversions of 16 bits to the order of the network and back.
pub record Net : Type 0 where
  pub af_unspec : ℕ
  pub af_inet : ℕ
  pub af_inet6 : ℕ
  pub htons : ℕ → ℕ
  pub ntohs : ℕ → ℕ

-- `em_sockaddr`; the port and the addresses are as stored, in the order of the network.
pub record SockAddr : Type 0 where
  pub family : ℕ
  pub port : ℕ
  pub ipv4 : Bytes
  pub ipv6 : Bytes

abbrev pub is_inet : Net → SockAddr → Bool
is_inet net a = (a.family == net.af_inet) || (a.family == net.af_inet6)

-- `em_sockaddr_get_addr`, the bytes of the address
abbrev pub get_addr : Net → SockAddr → Bytes
get_addr net a = if is_inet net a then (if a.family == net.af_inet6 then a.ipv6 else a.ipv4) else []

-- `em_sockaddr_get_addr_len` and `em_sockaddr_get_len`
abbrev pub get_addr_len : Net → SockAddr → ℕ
get_addr_len net a = if is_inet net a then (if a.family == net.af_inet6 then 16 else 4) else 0

abbrev pub get_len : Net → SockAddr → ℕ
get_len net a = if is_inet net a then (if a.family == net.af_inet6 then 28 else 16) else 0

-- `em_sockaddr_get_port` and `em_sockaddr_set_port`: whether it succeeds, and the address.
abbrev pub get_port : Net → SockAddr → ℕ
get_port net a = if is_inet net a then net.ntohs a.port else 65535

abbrev pub set_port : Net → SockAddr → ℕ → Bool × SockAddr
set_port net a hostport =
    if is_inet net a then (true, record a { port = net.htons hostport }) else (false, a)

-- `em_sockaddr_has_addr`
abbrev pub is_zero : ℤ → Bool
is_zero (pos zero) = true
is_zero (pos (suc n)) = false
is_zero (negsuc n) = false

abbrev pub all_zero : Bytes → Bool
all_zero [] = true
all_zero (c ∷ cs) = if c == 0 then all_zero cs else false

abbrev pub has_addr : Net → CompareFunction → SockAddr → Bool
has_addr net memcmp a =
    if not (is_inet net a)
    then false
    else if a.family == net.af_inet6
    then not (is_zero (memcmp a.ipv6 (replicate 24 0) 16))
    else not (all_zero a.ipv4)

-- `em_sockaddr_cmp`
abbrev pub sign_of_difference : ℕ → ℕ → ℤ
sign_of_difference m n = if ltb m n then negsuc 0 else if ltb n m then pos 1 else pos 0

abbrev pub unless_zero : ℤ → ℤ → ℤ
unless_zero (pos zero) other = other
unless_zero (pos (suc n)) other = pos (suc n)
unless_zero (negsuc n) other = negsuc n

abbrev pub cmp : Net → CompareFunction → SockAddr → SockAddr → ℤ
cmp net memcmp a1 a2 = unless_zero (sign_of_difference a1.family a2.family) (
    unless_zero (memcmp (get_addr net a1) (get_addr net a2) (get_addr_len net a1))
      (sign_of_difference (get_port net a1) (get_port net a2)))

-- `em_sockaddr_cp`, which copies nothing of an unknown family, and `em_sockaddr_copy_addr`
abbrev pub cp : Net → SockAddr → SockAddr → SockAddr
cp net dst src = if is_inet net src then src else dst

abbrev pub copy_addr : Net → SockAddr → SockAddr → SockAddr
copy_addr net dst src =
    if is_inet net src
    then (if src.family == net.af_inet6
        then record dst { ipv6 = src.ipv6 }
        else record dst { ipv4 = src.ipv4 })
    else dst

-- The loop of `em_sock_bind_random`. `bind` says of an address whether em_sock_bind succeeds with it,
-- `rand` what em_rand gives in each round; the result is whether the last try succeeded, and the
-- addresses that were tried, in order.
abbrev pub tried : SockAddr → Bool × List SockAddr → Bool × List SockAddr
tried a r = (r.0, a ∷ r.1)

abbrev pub with_port : Net → SockAddr → ℕ → SockAddr
with_port net a port = (set_port net a port).1

unfoldable pub bind_loop :
    Net → (SockAddr → Bool) → (ℕ → ℕ) → ℕ → ℕ → SockAddr → Bool → ℕ → Bool × List SockAddr
bind_loop net bind rand base_port port_range bind_addr status zero = (status, [])
bind_loop net bind rand base_port port_range bind_addr status (suc max_try) =
    let port = (base_port + rand max_try % (port_range + 1)) % 65536 in
    let a = with_port net bind_addr port in
    let rest = bind_loop net bind rand base_port port_range a (bind a) max_try in
    if bind a then (true, a ∷ []) else tried a rest

-- `em_sock_bind_random`; the copy of the address starts as `fresh`.
abbrev pub bind_random :
    Net → (SockAddr → Bool) → (ℕ → ℕ) → SockAddr → SockAddr → ℕ → ℕ → Bool × List SockAddr
bind_random net bind rand fresh addr port_range max_try =
    let bind_addr = cp net fresh addr in
    let base_port = get_port net addr in
    if (base_port == 0) || (port_range == 0)
    then (bind bind_addr, bind_addr ∷ [])
    else bind_loop net bind rand base_port port_range bind_addr true max_try
