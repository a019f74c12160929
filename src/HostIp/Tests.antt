-- ===== src/HostIp/Tests.antt =====
-- A machine with the name server's address 10.0.0.2 and the default interface 10.0.0.1, and one whose name
-- stands for 0.0.0.0.
use emlib.Prelude.{
  ℕ, ◌+◌, ◌*◌, ◌/◌, ◌%◌, ◌≡◌, refl, some, none, [], ◌∷◌, Bytes, ◌==◌, length, if◌then◌else◌,
}
use emlib.Prelude.Int.{◌+ℤ◌, ◌-ℤ◌}
use emlib.Str.Bytewise.{bytewise}
use emlib.AddrParse.{AddrStatus, succ, socket_error}
use emlib.AddrParse.Resolve.{addr_infos, is_succ}
use emlib.HostIp.{Host, blank, add_default, add_rest, any_same}
use emlib.HostIp.Choice.{gethostip, select}

abbrev swap_bytes : ℕ → ℕ
swap_bytes n = n % 256 * 256 + n / 256 % 256

abbrev machine : Bytes → AddrStatus → Host
machine named default = record {
  net = record {
    af_unspec = 0;
    af_inet = 2;
    af_inet6 = 10;
    htons = swap_bytes;
    ntohs = swap_bytes;
  };
  resolver = record {
    inet_aton = λ s. if length s == 7 then some (1 ∷ (1 ∷ (1 ∷ (1 ∷ [])))) else none;
    gethostbyname = λ s. some (record { name = s; addr_list = named ∷ [] });
  };
  memcmp = bytewise;
  hostname = 104 ∷ [];
  local_address = λ dst itf. (
    default,
    if is_succ default
        then record itf { family = 2; port = 5; ipv4 = 10 ∷ (0 ∷ (0 ∷ (1 ∷ []))) }
        else itf,
  );
}

-- The default interface wins.
default_chosen :
    gethostip (machine (10 ∷ (0 ∷ (0 ∷ (2 ∷ [])))) succ) 2 (blank 0)
    ≡ (succ, record (blank 2) { ipv4 = 10 ∷ (0 ∷ (0 ∷ (1 ∷ []))) })
unfolding addr_infos add_default add_rest any_same select ◌+ℤ◌ ◌-ℤ◌
default_chosen = refl

-- The address of the name is 0.0.0.0, which is marked as disabled, and it is chosen.
disabled_chosen :
    gethostip
      (machine (0 ∷ (0 ∷ (0 ∷ (0 ∷ [])))) socket_error)
      2
      (record (blank 0) { ipv4 = 9 ∷ (9 ∷ (9 ∷ (9 ∷ []))) })
    ≡ (succ, record (blank 2) { ipv4 = 0 ∷ (0 ∷ (0 ∷ (0 ∷ []))) })
unfolding addr_infos add_default add_rest any_same select ◌+ℤ◌ ◌-ℤ◌
disabled_chosen = refl
