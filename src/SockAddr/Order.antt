-- ===== src/SockAddr/Order.antt =====
-- em_sockaddr_cmp of src/sock_common.c.
use emlib.Prelude.{
  ℕ, zero, suc, ◌≡◌, ◌↔◌, refl, sym, ap, ◌∙◌, Bytes, arith, [], ◌∷◌, length, take, ◌==◌, Bool-cases,
  inl, inr,
}
use emlib.Prelude.Int.{ℤ, pos, negsuc}
use emlib.Str.{CompareFunction}
use emlib.Str.Compare.{IsMemcmp}
use emlib.SockAddr.{
  Net, SockAddr, is_inet, get_addr, get_addr_len, get_port, sign_of_difference, unless_zero, cmp,
}

-- The addresses have their sizes.
pub record IsValid (a : SockAddr) : Type 0 where
  pub size4 : length a.ipv4 ≡ 4
  pub size6 : length a.ipv6 ≡ 16

unless_zero_zero : (r o : ℤ) → unless_zero r o ≡ pos 0 → (r ≡ pos 0) × (o ≡ pos 0)
unless_zero_zero (pos zero) o h = (refl, h)
unless_zero_zero (pos (suc n)) o h = absurd (ground arith)
unless_zero_zero (negsuc n) o h = absurd (ground arith)

no_difference : (m n : ℕ) → sign_of_difference m n ≡ pos 0 → m ≡ n
no_difference m n h = ground arith

difference_refl : (n : ℕ) → sign_of_difference n n ≡ pos 0
difference_refl n = ground arith

length-get_addr :
    (net : Net) (a : SockAddr) → IsValid a → length (get_addr net a) ≡ get_addr_len net a
length-get_addr net a v = elim (Bool-cases (is_inet net a)) [
  | inl inet ↦ elim (Bool-cases (a.family == net.af_inet6)) [
    | inl six ↦ rw (inet, six) v.size6
    | inr four ↦ rw (inet, four) v.size4
  ]
  | inr other ↦ rw other refl
]

get_addr_len-family :
    (net : Net) (a1 a2 : SockAddr)
    → a1.family ≡ a2.family
    → get_addr_len net a1 ≡ get_addr_len net a2
get_addr_len-family net a1 a2 e = rw e refl

take_whole : (s : Bytes) (n : ℕ) → length s ≡ n → take n s ≡ s
take_whole [] n e = rw (sym e) refl
take_whole (c ∷ cs) zero e = absurd (omega arith)
take_whole (c ∷ cs) (suc n) e = ap (λ l. c ∷ l) (take_whole cs n (omega arith))

-- The two later tests of em_sockaddr_cmp.
abbrev on_bytes : Net → CompareFunction → SockAddr → SockAddr → ℤ
on_bytes net memcmp a1 a2 = memcmp (get_addr net a1) (get_addr net a2) (get_addr_len net a1)

abbrev on_ports : Net → SockAddr → SockAddr → ℤ
on_ports net a1 a2 = sign_of_difference (get_port net a1) (get_port net a2)

-- With a memcmp that decides the equality of n bytes, em_sockaddr_cmp is 0 exactly if the families, the
-- addresses and the ports of the two are equal.
pub cmp_lem :
    (net : Net) (memcmp : CompareFunction) (a1 a2 : SockAddr)
    → IsMemcmp memcmp
    → IsValid a1
    → IsValid a2
    → (cmp net memcmp a1 a2 ≡ pos 0) ↔ (
        (a1.family ≡ a2.family)
        × (get_addr net a1 ≡ get_addr net a2)
        × (get_port net a1 ≡ get_port net a2))
cmp_lem net memcmp a1 a2 m v1 v2 = (forth, back)
  where
    forth :
        cmp net memcmp a1 a2 ≡ pos 0
        → (a1.family ≡ a2.family)
          × (get_addr net a1 ≡ get_addr net a2)
          × (get_port net a1 ≡ get_port net a2)
    forth h =
        let (f, r) =
          unless_zero_zero (sign_of_difference a1.family a2.family)
            (unless_zero (on_bytes net memcmp a1 a2) (on_ports net a1 a2)) h in
        let (c, p) = unless_zero_zero (on_bytes net memcmp a1 a2) (on_ports net a1 a2) r in
        let family = no_difference a1.family a2.family f in
        let size1 = length-get_addr net a1 v1 in
        let size2 = length-get_addr net a2 v2 ∙ sym (get_addr_len-family net a1 a2 family) in
        let bytes =
          (m.equal (get_addr net a1) (get_addr net a2) (get_addr_len net a1) (omega (arith, size1))
              (omega (arith, size2))).0
            c in
        (
          family,
          sym (take_whole (get_addr net a1) (get_addr_len net a1) size1)
              ∙ bytes
              ∙ take_whole (get_addr net a2) (get_addr_len net a1) size2,
          no_difference (get_port net a1) (get_port net a2) p,
        )

    back :
        (a1.family ≡ a2.family)
          × (get_addr net a1 ≡ get_addr net a2)
          × (get_port net a1 ≡ get_port net a2)
        → cmp net memcmp a1 a2 ≡ pos 0
    back h =
        let size1 = length-get_addr net a1 v1 in
        let size2 = length-get_addr net a2 v2 ∙ sym (get_addr_len-family net a1 a2 h.0) in
        let same =
          (m.equal (get_addr net a1) (get_addr net a2) (get_addr_len net a1) (omega (arith, size1))
              (omega (arith, size2))).1
            (ap (take (get_addr_len net a1)) h.1) in
        let f : sign_of_difference a1.family a2.family ≡ pos 0 =
          rw h.0 (difference_refl a2.family) in
        let p : sign_of_difference (get_port net a1) (get_port net a2) ≡ pos 0 =
          rw h.2 (difference_refl (get_port net a2)) in
        ap (λ x. unless_zero x (unless_zero (on_bytes net memcmp a1 a2) (on_ports net a1 a2))) f
        ∙ ap (λ x. unless_zero x (on_ports net a1 a2)) same
        ∙ p
