-- ===== src/SockAddr/Bind.antt =====
-- em_sock_bind_random of src/sock_common.c.
use emlib.Prelude.{
  ℕ, zero, suc, ◌+◌, ◌%◌, ◌≤◌, ◌<◌, ◌≡◌, refl, sym, ◌∙◌, Bool, true, false, List, [], ◌∷◌, arith,
  length, ◌==◌, Bool-cases, inl, inr, ◌||◌, All,
}
use emlib.SockAddr.{Net, SockAddr, is_inet, get_port, with_port, tried, bind_loop, bind_random}

-- The stored port of an address that is tried: the base and at most the range above it, in 16 bits.
abbrev pub InRange : Net → ℕ → ℕ → SockAddr → Type 0
InRange net base range a =
    (offset : ℕ) × (offset ≤ range) × (a.port ≡ net.htons ((base + offset) % 65536))

-- Every address but the last one was refused, and the last one was taken if the result is a success;
-- without a try the result is `status`.
abbrev pub Ends : (SockAddr → Bool) → Bool → Bool → List SockAddr → Type 0
Ends bind status ok [] = ok ≡ status
Ends bind status ok (a ∷ []) = bind a ≡ ok
Ends bind status ok (a ∷ b ∷ bs) = (bind a ≡ false) × Ends bind status ok (b ∷ bs)

with_port-port :
    (net : Net) (a : SockAddr) (port : ℕ)
    → is_inet net a ≡ true
    → ((with_port net a port).port ≡ net.htons port) × (is_inet net (with_port net a port) ≡ true)
with_port-port net a port e = rw (with_port, e) (refl, e)

Ends-status :
    (bind : SockAddr → Bool) (s t ok : Bool) (a : SockAddr) (as' : List SockAddr)
    → Ends bind s ok (a ∷ as')
    → Ends bind t ok (a ∷ as')
Ends-status bind s t ok a [] e = e
Ends-status bind s t ok a (b ∷ bs) e = (e.0, Ends-status bind s t ok b bs e.1)

tried-Ends :
    (bind : SockAddr → Bool) (status : Bool) (a : SockAddr) (r : Bool × List SockAddr)
    → bind a ≡ false
    → Ends bind false r.0 r.1
    → Ends bind status (tried a r).0 (tried a r).1
tried-Ends bind status a (ok, []) refusal e = refusal ∙ sym e
tried-Ends bind status a (ok, b ∷ bs) refusal e = (refusal, Ends-status bind false status ok b bs e)

bind_loop_lem :
    (net : Net) (bind : SockAddr → Bool) (rand : ℕ → ℕ) (base range : ℕ) (a : SockAddr)
    (status : Bool) (max_try : ℕ)
    → is_inet net a ≡ true
    → All (InRange net base range) (bind_loop net bind rand base range a status max_try).1
      × (length (bind_loop net bind rand base range a status max_try).1 ≤ max_try)
      × Ends bind status
          (bind_loop net bind rand base range a status max_try).0
          (bind_loop net bind rand base range a status max_try).1
unfolding bind_loop
bind_loop_lem net bind rand base range a status zero e = (tt, omega arith, refl)
bind_loop_lem net bind rand base range a status (suc n) e =
    let offset = rand n % (range + 1) in
    let a' = with_port net a ((base + offset) % 65536) in
    let (stored, e') = with_port-port net a ((base + offset) % 65536) e in
    let here : InRange net base range a' = (offset, omega arith, stored) in
    let (all, few, ends) = bind_loop_lem net bind rand base range a' false n e' in
    elim (Bool-cases (bind a')) [
      | inl taken ↦ rw taken ((here, tt), omega arith, taken)
      | inr refusal ↦ rw refusal (
        (here, all),
        omega (arith, few),
        tried-Ends bind status a' (bind_loop net bind rand base range a' false n) refusal ends,
      )
    ]

-- em_sock_bind_random of an address with a port, of a family that it knows, and with a port range
-- that is not 0: it tries at most max_try addresses, each with a port of the range above the port of
-- the address, in 16 bits; it stops at the first address that can be bound, and then succeeds, and if
-- there is none fails, or succeeds if max_try is 0.
pub bind_random_lem :
    (net : Net) (bind : SockAddr → Bool) (rand : ℕ → ℕ) (fresh addr : SockAddr) (range max_try : ℕ)
    → is_inet net addr ≡ true
    → 0 < get_port net addr
    → 0 < range
    → All
        (InRange net (get_port net addr) range)
        (bind_random net bind rand fresh addr range max_try).1
      × (length (bind_random net bind rand fresh addr range max_try).1 ≤ max_try)
      × Ends bind true
          (bind_random net bind rand fresh addr range max_try).0
          (bind_random net bind rand fresh addr range max_try).1
bind_random_lem net bind rand fresh addr range max_try e port r =
    let some_port : ((get_port net addr == 0) || (range == 0)) ≡ false = ground (arith, port, r) in
    rw (some_port, e) (bind_loop_lem net bind rand (net.ntohs addr.port) range addr true max_try e)
