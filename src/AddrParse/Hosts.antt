-- ===== src/AddrParse/Hosts.antt =====
-- A host, a colon and a port, as em_sockaddr_parse2 of src/sock_common.c takes them apart.
use emlib.Prelude.{
  ℕ, suc, ◌+◌, ◌-◌, ◌<◌, ◌≡◌, refl, sym, ap, ◌∙◌, Bool, true, false, some, none, [], ◌∷◌, ◌++◌,
  Bytes, ltb, ◌==◌, if◌then◌else◌, length, take, drop, arith, Bool-cases, inl, inr, All, All-mono,
  take-append_self, length-append, append_assoc,
}
use emlib.StrNum.{Ctype}
use emlib.StrNum.Parse.{IsDigit}
use emlib.SockAddr.{Net}
use emlib.AddrParse.{
  parsed, is_empty, colon, open_bracket, close_bracket, scan_colons, parse_port, parse_inet,
  parse_inet6, strchr, with_host, parse2, quoted, strchr_from,
}
use emlib.AddrParse.Colons.{
  IsOther, scan_colons-append, scan_colons-counts, strchr-append, scan_colons-of_none,
}

-- The families of the system differ.
pub record IsDistinct (net : Net) : Type 0 where
  pub inet_unspec : (net.af_inet == net.af_unspec) ≡ false
  pub inet6_unspec : (net.af_inet6 == net.af_unspec) ≡ false
  pub inet6_inet : (net.af_inet6 == net.af_inet) ≡ false

-- The text of an address of IPv4, or of IPv6
abbrev pub IsText : (v6 : Bool) → Bytes → Type 0
IsText false txt = All (IsOther colon) txt
IsText true txt =
    All (IsOther close_bracket) txt
    × (before : Bytes) × (after : Bytes) × (txt ≡ before ++ (colon ∷ after))

abbrev pub family_of : Net → (v6 : Bool) → ℕ
family_of net v6 = if v6 then net.af_inet6 else net.af_inet

after_colon : (xs ys : Bytes) → drop (length xs + 1) (xs ++ (colon ∷ ys)) ≡ ys
after_colon [] ys = refl
after_colon (x ∷ xs) ys =
    ap (λ n. drop n (x ∷ (xs ++ (colon ∷ ys)))) {x = suc (length xs) + 1} {y = suc (length xs + 1)}
      (omega arith)
    ∙ after_colon xs ys

pub digits-no_colon : (ds : Bytes) → All IsDigit ds → All (IsOther colon) ds
digits-no_colon ds h = All-mono IsDigit (IsOther colon) ds (λ c d. ground (arith, d)) h

append-is_empty : (xs : Bytes) (c : ℕ) (ys : Bytes) → is_empty (xs ++ (c ∷ ys)) ≡ false
append-is_empty [] c ys = refl
append-is_empty (x ∷ xs) c ys = refl

-- Without a family the number of colons decides.
parse2-unspec :
    (ct : Ctype) (net : Net) (str : Bytes)
    → IsDistinct net
    → is_empty str ≡ false
    → parse2 ct net net.af_unspec 0 str ≡ (
        if ltb 1 (scan_colons str 0 0 none).0
        then parse_inet6 ct net str (scan_colons str 0 0 none).1
        else parse_inet ct net str (scan_colons str 0 0 none).1)
parse2-unspec ct net str f some_text =
    let same : (net.af_unspec == net.af_unspec) ≡ true = ground arith in
    let same_inet : (net.af_inet == net.af_inet) ≡ true = ground arith in
    let same_inet6 : (net.af_inet6 == net.af_inet6) ≡ true = ground arith in
    let unspec_inet : (net.af_unspec == net.af_inet) ≡ false = ground (arith, f.inet_unspec) in
    let unspec_inet6 : (net.af_unspec == net.af_inet6) ≡ false = ground (arith, f.inet6_unspec) in
    rw same rw unspec_inet rw unspec_inet6 rw some_text
      (elim (Bool-cases (ltb 1 (scan_colons str 0 0 none).0)) [
        | inl several ↦ rw several rw (f.inet6_inet) rw same_inet6 refl
        | inr few ↦ rw few rw same_inet refl
      ])

-- A host, a colon and a port
pub parse2-inet :
    (ct : Ctype) (net : Net) (txt ds : Bytes)
    → IsDistinct net
    → All (IsOther colon) txt
    → All (IsOther colon) ds
    → parse2 ct net net.af_unspec 0 (txt ++ (colon ∷ ds))
      ≡ with_host txt net.af_inet (parse_port ct ds)
parse2-inet ct net txt ds f h hd =
    let str = txt ++ (colon ∷ ds) in
    let found : scan_colons str 0 0 none ≡ (1, some (length txt)) =
      scan_colons-append txt ds 0 0 none hd
      ∙ rw (scan_colons-of_none txt 0 0 none h) (ap (λ i. (1, some i)) (omega arith)) in
    let at_port : drop (length txt + 1) str ≡ ds =
      ap (λ n. drop n str) {x = length txt + 1} {y = length txt + 1} refl ∙ after_colon txt ds in
    parse2-unspec ct net str f (append-is_empty txt colon ds)
    ∙ rw found rw at_port rw (take-append_self txt (colon ∷ ds) (length txt) refl) refl

quoted-counts :
    (txt : Bytes)
    → (before : Bytes) × (after : Bytes) × (txt ≡ before ++ (colon ∷ after))
    → 0 < (scan_colons (quoted true txt) 0 0 none).0
quoted-counts txt (before, after, e) =
    let shape : quoted true txt
        ≡ (open_bracket ∷ before) ++ (colon ∷ (after ++ (close_bracket ∷ []))) =
      ap (λ t. open_bracket ∷ (t ++ (close_bracket ∷ []))) e
      ∙ ap (λ t. open_bracket ∷ t) (append_assoc before (colon ∷ after) (close_bracket ∷ [])) in
    rw shape (scan_colons-counts (open_bracket ∷ before) (after ++ (close_bracket ∷ [])) 0 0 none)

-- The same in brackets
pub parse2-inet6 :
    (ct : Ctype) (net : Net) (txt ds : Bytes) (port : ℕ)
    → IsDistinct net
    → IsText true txt
    → All (IsOther colon) ds
    → parse_port ct ds ≡ some port
    → parse2 ct net net.af_unspec 0 (quoted true txt ++ (colon ∷ ds)) ≡ parsed txt port net.af_inet6
unfolding strchr_from
parse2-inet6 ct net txt ds port f (h, before, after, e') hd e =
    let str = quoted true txt ++ (colon ∷ ds) in
    let long : length (quoted true txt) ≡ length txt + 2 =
      omega (arith, length-append txt (close_bracket ∷ [])) in
    let counted = scan_colons-append (quoted true txt) ds 0 0 none hd in
    let last : (scan_colons str 0 0 none).1 ≡ some (length txt + 2) =
      ap (λ r. r.1) counted ∙ ap some (omega (arith, long)) in
    let several : ltb 1 (scan_colons str 0 0 none).0 ≡ true =
      ground (arith, ap (λ r. r.0) counted, quoted-counts txt (before, after, e')) in
    let bracket : strchr str close_bracket ≡ some (1 + length txt) =
      rw (append_assoc txt (close_bracket ∷ []) (colon ∷ ds))
        (strchr-append close_bracket txt (colon ∷ ds) 1 h) in
    let at_port : drop (length txt + 2 + 1) str ≡ ds =
      ap (λ n. drop (n + 1) str) (sym long) ∙ after_colon (quoted true txt) ds in
    let at_host : take (1 + length txt - 1) (drop 1 str) ≡ txt =
      rw (append_assoc txt (close_bracket ∷ []) (colon ∷ ds))
        (take-append_self txt (close_bracket ∷ (colon ∷ ds)) (1 + length txt - 1) (omega arith)) in
    let behind : ltb (length txt + 2) (1 + length txt) ≡ false = ground arith in
    parse2-unspec ct net str f refl
    ∙ rw several rw last rw bracket rw behind rw at_port rw e rw at_host refl
