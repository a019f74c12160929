-- ===== src/AddrParse/Tests.antt =====
-- The addresses 10.0.0.1:80 and [::1]:5060.
use emlib.Prelude.{
  ℕ, ◌+◌, ◌*◌, ◌/◌, ◌%◌, ◌≤◌, ◌<◌, ◌≡◌, refl, true, Option, some, none, [], ◌∷◌, ◌++◌, Bytes, ltb,
  ◌==◌, if◌then◌else◌, length, replicate, arith, Bool-cases, inl, inr, All,
}
use emlib.StrNum.{Ctype, strtoul_from}
use emlib.StrNum.Digits.{IsAscii, digit_char, space_char, xdigit_char}
use emlib.StrNum.Parse.{digits_value, IsDigit}
use emlib.SockAddr.{Net, SockAddr}
use emlib.AddrParse.{succ, parsed, parse_port, parse2, print, colon, all_digits}
use emlib.AddrParse.Resolve.{Resolver, parse}
use emlib.AddrParse.Hosts.{IsDistinct}
use emlib.AddrParse.Printed.{IsDecimal, parse2-print}
use emlib.AddrParse.Resolved.{parse_lem}

abbrev c_locale : Ctype
c_locale = record { isspace = space_char; isdigit = digit_char; isxdigit = xdigit_char }

c_locale-IsAscii : IsAscii c_locale
c_locale-IsAscii = record { space = λ c. refl; digit = λ c. refl; xdigit = λ c. refl }

abbrev swapped : ℕ → ℕ
swapped n = n % 256 * 256 + n / 256 % 256

abbrev linux_net : Net
linux_net = record { af_unspec = 0; af_inet = 2; af_inet6 = 10; htons = swapped; ntohs = swapped }

linux_net-IsDistinct : IsDistinct linux_net
linux_net-IsDistinct = record { inet_unspec = refl; inet6_unspec = refl; inet6_inet = refl }

-- The digits of a port
abbrev char_of : ℕ → ℕ
char_of n = n % 10 + 48

abbrev decimal_port : ℕ → Bytes
decimal_port n =
    if ltb n 10
    then char_of n ∷ []
    else if ltb n 100
    then char_of (n / 10) ∷ (char_of n ∷ [])
    else if ltb n 1000
    then char_of (n / 100) ∷ (char_of (n / 10) ∷ (char_of n ∷ []))
    else if ltb n 10000
    then char_of (n / 1000) ∷ (char_of (n / 100) ∷ (char_of (n / 10) ∷ (char_of n ∷ [])))
    else char_of (n / 10000)
      ∷ (char_of (n / 1000) ∷ (char_of (n / 100) ∷ (char_of (n / 10) ∷ (char_of n ∷ []))))

char_of-IsDigit : (n : ℕ) → IsDigit (char_of n)
char_of-IsDigit n = ground arith

abbrev IsPortText : ℕ → Bytes → Type 0
IsPortText n ds = All IsDigit ds × (digits_value 0 ds ≡ n) × (length ds ≤ 5)

decimal_port_lem : (n : ℕ) → n < 65536 → IsPortText n (decimal_port n)
decimal_port_lem n h = elim (Bool-cases (ltb n 10)) [
  | inl one ↦ rw one ((d n, tt), ground arith, omega arith)
  | inr more ↦ rw more (elim (Bool-cases (ltb n 100)) [
    | inl two ↦ rw two ((d (n / 10), (d n, tt)), ground arith, omega arith)
    | inr more2 ↦ rw more2 (elim (Bool-cases (ltb n 1000)) [
      | inl three ↦ rw three ((d (n / 100), (d (n / 10), (d n, tt))), ground arith, omega arith)
      | inr more3 ↦ rw more3 (elim (Bool-cases (ltb n 10000)) [
        | inl four ↦
            rw four
              ((d (n / 1000), (d (n / 100), (d (n / 10), (d n, tt)))), ground arith, omega arith)
        | inr more4 ↦ rw more4 (
          (d (n / 10000), (d (n / 1000), (d (n / 100), (d (n / 10), (d n, tt))))),
          ground arith,
          omega arith,
        )
      ])
    ])
  ])
]
  where
    d : (k : ℕ) → IsDigit (char_of k)
    d k = char_of-IsDigit k

decimal_port-IsDecimal : IsDecimal decimal_port
decimal_port-IsDecimal = record {
  digits = λ n h. (decimal_port_lem n h).0;
  value = λ n h. (decimal_port_lem n h).1;
  short = λ n h. (decimal_port_lem n h).2;
}

-- 10.0.0.1 with port 80, and ::1 with port 5060
abbrev web : SockAddr
web = record { family = 2; port = 20480; ipv4 = 10 ∷ (0 ∷ (0 ∷ (1 ∷ []))); ipv6 = [] }

abbrev ten_text : Bytes
ten_text = 49 ∷ (48 ∷ (46 ∷ (48 ∷ (46 ∷ (48 ∷ (46 ∷ (49 ∷ [])))))))

abbrev one_text : Bytes
one_text = 58 ∷ (58 ∷ (49 ∷ []))

abbrev loop6 : SockAddr
loop6 = record { family = 10; port = 50195; ipv4 = []; ipv6 = replicate 15 0 ++ (1 ∷ []) }

abbrev ntop_of : ℕ → Bytes → Option Bytes
ntop_of af bytes = if af == 10 then some one_text else some ten_text

web_text :
    print linux_net (some ntop_of) decimal_port web 46 3 ≡ ten_text ++ (58 ∷ (56 ∷ (48 ∷ [])))
web_text = refl

parse2-print_example :
    (parse2 c_locale linux_net 0 0 (print linux_net (some ntop_of) decimal_port loop6 46 3)
      ≡ parsed one_text 5060 10)
    × (print linux_net none decimal_port loop6 46 3 ≡ [])
parse2-print_example =
    parse2-print c_locale linux_net ntop_of decimal_port loop6 true one_text 46 c_locale-IsAscii
      linux_net-IsDistinct decimal_port-IsDecimal refl refl
      ((refl, (refl, (refl, tt))), [], 58 ∷ (49 ∷ []), refl) (omega arith) (omega arith)

-- A name server that knows one host
abbrev knows_ten : Resolver
knows_ten = record {
  inet_aton = λ s. if length s == 8 then some (10 ∷ (0 ∷ (0 ∷ (1 ∷ [])))) else none;
  gethostbyname = λ s. some (record { name = s; addr_list = (10 ∷ (0 ∷ (0 ∷ (2 ∷ [])))) ∷ [] });
}

parse_lem_example :
    parse c_locale linux_net knows_ten 0 0 (ten_text ++ (colon ∷ (56 ∷ (48 ∷ [])))) loop6
    ≡ (succ, record loop6 { family = 2; port = 20480; ipv4 = 10 ∷ (0 ∷ (0 ∷ (1 ∷ []))) })
parse_lem_example =
    parse_lem c_locale linux_net knows_ten ten_text (56 ∷ (48 ∷ [])) loop6 c_locale-IsAscii
      linux_net-IsDistinct (refl, (refl, (refl, (refl, (refl, (refl, (refl, (refl, tt))))))))
      (omega arith) (refl, (refl, tt)) (omega arith)

-- 2 ^ 64 + 80 is read as the port 80.
abbrev wrapped_port : Bytes
wrapped_port =
    49 ∷ 56 ∷ 52 ∷ 52 ∷ 54 ∷ 55 ∷ 52 ∷ 52 ∷ 48 ∷ 55 ∷ 51 ∷ 55 ∷ 48 ∷ 57 ∷ 53 ∷ 53 ∷ 49 ∷ 54 ∷ 57
    ∷ 54 ∷ []

wrapped_port-is_80 : parse_port c_locale wrapped_port ≡ some 80
unfolding all_digits strtoul_from
wrapped_port-is_80 = refl
