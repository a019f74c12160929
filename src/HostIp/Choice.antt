-- ===== src/HostIp/Choice.antt =====
-- The rest of em_gethostip of src/sock_common.c: the weights of special addresses, and the choice. A test with a
-- mask goes byte by byte, in the order of the network, for both kinds of address.
use Prim.Native.Nat.{bit_and}
use emlib.Prelude.{
  ℕ, ◌-◌, Bool, true, not, ◌||◌, ◌&&◌, Option, some, none, List, [], ◌∷◌, ◌++◌, Bytes, ◌==◌, ltb,
  length, if◌then◌else◌, replicate, map,
}
use emlib.Prelude.Int.{ℤ, pos, ◌+ℤ◌, lt_ℤ}
use emlib.SockAddr.{SockAddr, copy_addr}
use emlib.AddrParse.{AddrStatus, succ, eafnotsup}
use emlib.HostIp.{
  Host, Cand, weight_loopback, weight_link_local, weight_disabled, min_weight, cand_cnt,
  getdefaultipinterface, enum_ip_interface, hostname_cand, with_default, with_interfaces,
}

-- `spec_ipv4_t` and `spec_ipv6_t`
pub record SpecAddr : Type 0 where
  pub addr : Bytes
  pub mask : Bytes
  pub weight : ℤ

abbrev pub spec_ipv4 : List SpecAddr
spec_ipv4 =
    record { addr = 127 ∷ replicate 3 0; mask = 255 ∷ replicate 3 0; weight = weight_loopback }
    ∷ (record { addr = replicate 4 0; mask = 255 ∷ replicate 3 0; weight = weight_disabled }
        ∷ (record {
          addr = 169 ∷ (254 ∷ replicate 2 0);
          mask = 255 ∷ (255 ∷ replicate 2 0);
          weight = weight_link_local;
        }
            ∷ []))

abbrev pub spec_ipv6 : List SpecAddr
spec_ipv6 =
    record { addr = replicate 15 0 ++ (1 ∷ []); mask = replicate 16 255; weight = weight_loopback }
    ∷ (record {
      addr = 254 ∷ (128 ∷ replicate 14 0);
      mask = 255 ∷ (192 ∷ replicate 14 0);
      weight = weight_link_local;
    }
        ∷ (record { addr = replicate 16 0; mask = replicate 16 255; weight = weight_disabled }
            ∷ []))

abbrev pub matches : (address mask wanted : Bytes) → Bool
matches (a ∷ address) (m ∷ mask) (w ∷ wanted) = (bit_and a m == w) && matches address mask wanted
matches (a ∷ address) (m ∷ mask) [] = true
matches (a ∷ address) [] wanted = true
matches [] mask wanted = true

-- The first match counts for IPv4, and every match for IPv6.
abbrev pub first_weight : List SpecAddr → Bytes → ℤ
first_weight [] a = pos 0
first_weight (s ∷ ss) a = if matches a s.mask s.addr then s.weight else first_weight ss a

abbrev pub all_weights : List SpecAddr → Bytes → ℤ → ℤ
all_weights [] a weight = weight
all_weights (s ∷ ss) a weight =
    all_weights ss a (if matches a s.mask s.addr then weight +ℤ s.weight else weight)

abbrev pub adjusted : Host → (af : ℕ) → Cand → Cand
adjusted h af c =
    if af == h.net.af_inet
    then record c { weight = c.weight +ℤ first_weight spec_ipv4 c.addr.ipv4 }
    else record c { weight = all_weights spec_ipv6 c.addr.ipv6 c.weight }

-- The loop that chooses, with the candidate that is selected so far.
abbrev pub better : Cand → Option Cand → Option Cand
better c none = some c
better c (some s) = if lt_ℤ s.weight c.weight then some c else some s

unfoldable pub select : List Cand → (selected_cand : Option Cand) → Option Cand
select [] selected_cand = selected_cand
select (c ∷ cs) selected_cand =
    select cs (if lt_ℤ c.weight min_weight then selected_cand else better c selected_cand)

-- The candidates with their weights, and `em_gethostip`: the status and the address, which starts as `addr`.
abbrev pub default_added : Host → (af : ℕ) → SockAddr → List Cand × SockAddr
default_added h af addr =
    let cs = hostname_cand h af in
    if ltb (length cs) cand_cnt
    then with_default h af (getdefaultipinterface h af (record addr { family = af })) cs
    else (cs, record addr { family = af })

abbrev pub interfaces_added : Host → (af : ℕ) → List Cand → List Cand
interfaces_added h af cs =
    if ltb (length cs) cand_cnt
    then with_interfaces h (enum_ip_interface h af (cand_cnt - length cs)) cs
    else cs

abbrev pub candidates : Host → (af : ℕ) → SockAddr → List Cand × SockAddr
candidates h af addr =
    let (cs, addr') = default_added h af addr in
    (map (adjusted h af) (interfaces_added h af cs), addr')

abbrev pub loopback : Host → (af : ℕ) → SockAddr → SockAddr
loopback h af addr =
    if af == h.net.af_inet
    then record addr { ipv4 = 127 ∷ (0 ∷ (0 ∷ (1 ∷ []))) }
    else record addr { ipv6 = replicate 15 0 ++ (1 ∷ []) }

abbrev pub chosen : Host → (af : ℕ) → SockAddr → Option Cand → SockAddr
chosen h af addr none = loopback h af addr
chosen h af addr (some c) = copy_addr h.net addr c.addr

abbrev pub gethostip : Host → (af : ℕ) → SockAddr → AddrStatus × SockAddr
gethostip h af addr =
    let (cs, addr') = candidates h af addr in
    if not ((af == h.net.af_inet) || (af == h.net.af_inet6))
    then (eafnotsup, addr')
    else (succ, chosen h af addr' (select cs none))
