-- ===== src/AddrParse/Printed.antt =====
-- Parsing the text that em_sockaddr_print of src/sock_common.c makes of an address.
use emlib.Prelude.{
  ℕ, zero, suc, ◌+◌, ◌-◌, ◌≤◌, ◌<◌, ◌≡◌, refl, ap, ◌∙◌, Bool, true, false, ◌||◌, ◌&&◌, ◌/◌, ◌%◌,
  Option, some, none, [], ◌∷◌, ◌++◌, Bytes, ltb, ◌==◌, if◌then◌else◌, length, take, arith, All,
  length-append,
}
use emlib.StrNum.{Ctype}
use emlib.StrNum.Digits.{IsAscii}
use emlib.StrNum.Parse.{digits_value, IsDigit}
use emlib.SockAddr.{Net, SockAddr, get_port, get_addr}
use emlib.AddrParse.{
  parsed, colon, close_bracket, parse_port, with_host, parse2, print, quoted, printed, inet_ntop,
}
use emlib.AddrParse.Colons.{IsOther}
use emlib.AddrParse.Port.{parse_port-Reads_digits}
use emlib.AddrParse.Hosts.{
  IsDistinct, IsText, family_of, digits-no_colon, parse2-inet, parse2-inet6,
}

-- What snprintf is asked to write of a port: its decimal digits.
pub record IsDecimal (decimal : ℕ → Bytes) : Type 0 where
  pub digits : (n : ℕ) → n < 65536 → All IsDigit (decimal n)
  pub value : (n : ℕ) → n < 65536 → digits_value 0 (decimal n) ≡ n
  pub short : (n : ℕ) → n < 65536 → length (decimal n) ≤ 5

parse_port-decimal :
    (ct : Ctype) (decimal : ℕ → Bytes) (port : ℕ)
    → IsAscii ct
    → IsDecimal decimal
    → port < 65536
    → parse_port ct (decimal port) ≡ some port
parse_port-decimal ct decimal port a d small =
    let value = d.value port small in
    let fits : ltb 65535 port ≡ false = ground arith in
    parse_port-Reads_digits ct (decimal port) a (d.digits port small) (omega (arith, value))
    ∙ rw value rw fits refl

-- A text that is not longer than the room for it is written whole.
take-all : (n : ℕ) (xs : Bytes) → length xs ≤ n → take n xs ≡ xs
take-all zero [] h = refl
take-all zero (x ∷ xs) h = absurd (omega (arith, h))
take-all (suc n) [] h = refl
take-all (suc n) (x ∷ xs) h = ap (λ l. x ∷ l) (take-all n xs (omega (arith, h)))

printed-port :
    (txt : Bytes) (v6 : Bool) (decimal : ℕ → Bytes) (port size : ℕ)
    → length (decimal port) ≤ 5
    → length txt + 8 < size
    → printed (some txt) v6 true decimal port size ≡ quoted v6 txt ++ (colon ∷ decimal port)
printed-port txt v6 decimal port size short h =
    ap (λ l. take (size - 1) (quoted v6 txt ++ l))
      (take-all 31 (colon ∷ decimal port) (omega arith))
    ∙ take-all (size - 1) (quoted v6 txt ++ (colon ∷ decimal port)) (fits v6)
  where
    fits : (v6 : Bool) → length (quoted v6 txt ++ (colon ∷ decimal port)) ≤ size - 1
    fits false = omega (arith, length-append txt (colon ∷ decimal port))
    fits true = omega (
      arith,
      length-append (quoted true txt) (colon ∷ decimal port),
      length-append txt (close_bracket ∷ []),
    )

known_family :
    (net : Net) (v6 : Bool) (af : ℕ)
    → IsDistinct net
    → af ≡ family_of net v6
    → (((af == net.af_inet) || (af == net.af_inet6)) ≡ true) × ((af == net.af_inet6) ≡ v6)
known_family net true af f e = ground arith
known_family net false af f e = ground (arith, f.inet6_inet)

print-text :
    (net : Net) (ntop : ℕ → Bytes → Option Bytes) (decimal : ℕ → Bytes) (a : SockAddr) (v6 : Bool)
    (txt : Bytes) (size : ℕ)
    → IsDistinct net
    → a.family ≡ family_of net v6
    → ntop a.family (get_addr net a) ≡ some txt
    → length (decimal (get_port net a)) ≤ 5
    → length txt + 8 < size
    → print net (some ntop) decimal a size 3 ≡ quoted v6 txt ++ (colon ∷ decimal (get_port net a))
print-text net ntop decimal a v6 txt size f fam e short room =
    let (known, kind) = known_family net v6 a.family f fam in
    let port = get_port net a in
    let text : inet_ntop net (some ntop) a.family (get_addr net a) ≡ some txt =
      ap (λ b. if b then ntop a.family (get_addr net a) else none) known ∙ e in
    let brackets : ((a.family == net.af_inet6) && (3 / 2 % 2 == 1)) ≡ v6 =
      ap (λ b. b && true) kind ∙ and_true v6 in
    ap (λ o. printed o ((a.family == net.af_inet6) && (3 / 2 % 2 == 1)) true decimal port size) text
    ∙ ap (λ b. printed (some txt) b true decimal port size) brackets
    ∙ printed-port txt v6 decimal port size short room
  where
    and_true : (b : Bool) → (b && true) ≡ b
    and_true true = refl
    and_true false = refl

parse2-quoted :
    (ct : Ctype) (net : Net) (v6 : Bool) (txt ds : Bytes) (port : ℕ)
    → IsDistinct net
    → IsText v6 txt
    → All (IsOther colon) ds
    → parse_port ct ds ≡ some port
    → parse2 ct net net.af_unspec 0 (quoted v6 txt ++ (colon ∷ ds))
      ≡ parsed txt port (family_of net v6)
parse2-quoted ct net true txt ds port f t h e = parse2-inet6 ct net txt ds port f t h e
parse2-quoted ct net false txt ds port f t h e =
    parse2-inet ct net txt ds f t h ∙ ap (with_host txt net.af_inet) e

-- In a build with inet_ntop: an address whose text inet_ntop makes, without colons for IPv4, and with one and
-- without a closing bracket for IPv6. em_sockaddr_print, asked for the port and for brackets, and given a
-- buffer with room for the text and 8 more characters and the final null, writes what
-- em_sockaddr_parse2, not told the family, takes apart again into that text, the port of the address and
-- its family. Without inet_ntop the printed text is empty.
pub parse2-print :
    (ct : Ctype) (net : Net) (ntop : ℕ → Bytes → Option Bytes) (decimal : ℕ → Bytes) (a : SockAddr)
    (v6 : Bool) (txt : Bytes) (size : ℕ)
    → IsAscii ct
    → IsDistinct net
    → IsDecimal decimal
    → a.family ≡ family_of net v6
    → ntop a.family (get_addr net a) ≡ some txt
    → IsText v6 txt
    → get_port net a < 65536
    → length txt + 8 < size
    → (parse2 ct net net.af_unspec 0 (print net (some ntop) decimal a size 3)
        ≡ parsed txt (get_port net a) (family_of net v6))
      × (print net none decimal a size 3 ≡ [])
parse2-print ct net ntop decimal a v6 txt size ascii f d fam e t small room =
    let port = get_port net a in
    (
      ap (λ s. parse2 ct net net.af_unspec 0 s)
            (print-text net ntop decimal a v6 txt size f fam e (d.short port small) room)
          ∙ parse2-quoted ct net v6 txt (decimal port) port f t
              (digits-no_colon (decimal port) (d.digits port small))
              (parse_port-decimal ct decimal port ascii d small),
      refl,
    )
