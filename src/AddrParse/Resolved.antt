-- ===== src/AddrParse/Resolved.antt =====
-- The address that em_sockaddr_parse of src/sock_common.c makes of a host and a port, through em_inet_aton and
-- em_getaddrinfo.
use emlib.Prelude.{
  ℕ, ◌<◌, ◌≡◌, refl, ap, ◌∙◌, Bool, true, false, not, ◌&&◌, Option, some, none, List, [], ◌∷◌, ◌++◌,
  Bytes, leb, ltb, ◌==◌, if◌then◌else◌, length, replicate, arith, Bool-cases, inl, inr, All,
}
use emlib.StrNum.{Ctype, word}
use emlib.StrNum.Digits.{IsAscii}
use emlib.StrNum.Parse.{digits_value, IsDigit}
use emlib.SockAddr.{Net, SockAddr}
use emlib.AddrParse.{
  AddrStatus, succ, einval, eresolve, parsed, colon, is_empty, is_family, with_host,
}
use emlib.AddrParse.Resolve.{
  Resolver, Hostent, inaddr_none, max_hostname, all_255, inet_addr, inet_addrstrlen, or_none,
  addr_infos, host_infos, found_host, succ_if_some, take_ipv4, in_init, init_parsed, parse,
}
use emlib.AddrParse.Colons.{IsOther}
use emlib.AddrParse.Port.{parse_port-Reads_digits}
use emlib.AddrParse.Hosts.{IsDistinct, parse2-inet, digits-no_colon}

-- The four bytes that a host stands for: none for an empty one, those of its numbers, or else the first
-- address of that name. The numbers 255.255.255.255 are taken for a name.
abbrev pub first_of : (kept : Bytes) → List Bytes → AddrStatus × Bytes
first_of kept [] = (eresolve, kept)
first_of kept (a ∷ more) = (succ, a)

abbrev pub first_address : (kept : Bytes) → Option Hostent → AddrStatus × Bytes
first_address kept none = (eresolve, kept)
first_address kept (some he) = first_of kept he.addr_list

abbrev pub by_numbers : Resolver → Bytes → Bytes
by_numbers sys host =
    if ltb (length host) inet_addrstrlen then or_none (sys.inet_aton host) else inaddr_none

abbrev pub address_of : Resolver → Bytes → AddrStatus × Bytes
address_of sys host =
    if is_empty host
    then (succ, replicate 4 0)
    else if all_255 (by_numbers sys host)
    then first_address (by_numbers sys host) (sys.gethostbyname host)
    else (succ, by_numbers sys host)

abbrev pub with_address : Net → SockAddr → (port : ℕ) → AddrStatus × Bytes → AddrStatus × SockAddr
with_address net addr port (status, bytes) =
    (status, record addr { family = net.af_inet; port = net.htons port; ipv4 = bytes })

if_true {ℓ} : {A : Type ℓ} (b : Bool) (x y : A) → b ≡ true → (if b then x else y) ≡ x
if_true b x y e = rw e refl

if_false {ℓ} : {A : Type ℓ} (b : Bool) (x y : A) → b ≡ false → (if b then x else y) ≡ y
if_false b x y e = rw e refl

-- What em_getaddrinfo gives for one address
take_ipv4-first_address :
    (net : Net) (answer : Option Hostent) (addr : SockAddr)
    → take_ipv4 (host_infos net 1 (found_host answer)) addr ≡ (
        let (status, bytes) = first_address addr.ipv4 answer in
        (status, record addr { ipv4 = bytes }))
unfolding addr_infos
take_ipv4-first_address net none addr = refl
take_ipv4-first_address net (some he) addr = first he.addr_list
  where
    first :
        (addrs : List Bytes)
        → take_ipv4 (succ_if_some (addr_infos net he.name addrs 1)) addr ≡ (
            let (status, bytes) = first_of addr.ipv4 addrs in
            (status, record addr { ipv4 = bytes }))
    first [] = refl
    first (a ∷ more) = refl

inet_addr-of_numbers :
    (sys : Resolver) (host : Bytes)
    → is_empty host ≡ false
    → inet_addr sys host ≡ by_numbers sys host
inet_addr-of_numbers sys host e = elim (Bool-cases (ltb (length host) inet_addrstrlen)) [
  | inl short ↦
      let fits : leb inet_addrstrlen (length host) ≡ false = ground arith in
      rw e rw short rw fits refl
  | inr long ↦
      let over : leb inet_addrstrlen (length host) ≡ true = ground arith in
      rw e rw long rw over refl
]

in_init_lem :
    (net : Net) (sys : Resolver) (addr : SockAddr) (host : Bytes) (port : ℕ)
    → length host < max_hostname
    → in_init net sys addr host port ≡ with_address net addr port (address_of sys host)
in_init_lem net sys addr host port short =
    let fits : leb max_hostname (length host) ≡ false = ground arith in
    let same : (net.af_inet == net.af_inet) ≡ true = ground arith in
    elim (Bool-cases (is_empty host)) [
      | inl empty ↦ rw fits rw empty refl
      | inr nonempty ↦
          rw (inet_addr-of_numbers sys host nonempty) rw fits rw nonempty
            (elim (Bool-cases (all_255 (by_numbers sys host))) [
              | inl name ↦ rw name rw same (
                  take_ipv4-first_address net (sys.gethostbyname host) (record addr {
                    family = net.af_inet;
                    port = net.htons port;
                    ipv4 = by_numbers sys host;
                  }))
              | inr numbers ↦ rw numbers refl
            ])
    ]

init_inet :
    (net : Net) (sys : Resolver) (addr : SockAddr) (host : Bytes) (port : ℕ)
    → IsDistinct net
    → length host < max_hostname
    → init_parsed net sys addr (parsed host port net.af_inet)
      ≡ with_address net addr port (address_of sys host)
init_inet net sys addr host port f short =
    let same : (net.af_inet == net.af_inet) ≡ true = ground arith in
    let v4 : (net.af_inet == net.af_inet6) ≡ false = ground (arith, f.inet6_inet) in
    if_false _ _ _ v4 ∙ if_true _ _ _ same ∙ in_init_lem net sys addr host port short

-- em_sockaddr_parse, not told the family, of a host of fewer than 128 characters without a colon, then a
-- colon and digits of a number below 2 ^ 64: a number above 65535 is refused, and the address stays as
-- it was. Otherwise the family and the port are set, and the address is 0 for an empty
-- host, the numbers that inet_aton reads in it, or else the first address that gethostbyname gives, also
-- when the numbers are 255.255.255.255; without such an address the result is EM_ERESOLVE.
pub parse_lem :
    (ct : Ctype) (net : Net) (sys : Resolver) (host ds : Bytes) (addr : SockAddr)
    → IsAscii ct
    → IsDistinct net
    → All (IsOther colon) host
    → length host < max_hostname
    → All IsDigit ds
    → digits_value 0 ds < word
    → parse ct net sys net.af_unspec 0 (host ++ (colon ∷ ds)) addr ≡ (
        if ltb 65535 (digits_value 0 ds)
        then (einval, addr)
        else with_address net addr (digits_value 0 ds) (address_of sys host))
parse_lem ct net sys host ds addr a f h short digits small =
    let known : not (is_family net net.af_unspec && (0 == 0)) ≡ false = ground arith in
    let text = host ++ (colon ∷ ds) in
    if_false _ _ _ known
    ∙ ap (init_parsed net sys addr) (
        parse2-inet ct net host ds f h (digits-no_colon ds digits)
        ∙ ap (with_host host net.af_inet) (parse_port-Reads_digits ct ds a digits small))
    ∙ by_port (ltb 65535 (digits_value 0 ds))
  where
    by_port :
        (over : Bool)
        → init_parsed net sys addr
            (with_host host net.af_inet (if over then none else some (digits_value 0 ds)))
          ≡ (if over
              then (einval, addr)
              else with_address net addr (digits_value 0 ds) (address_of sys host))
    by_port true = refl
    by_port false = init_inet net sys addr host (digits_value 0 ds) f short
