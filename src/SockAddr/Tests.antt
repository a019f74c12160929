-- ===== src/SockAddr/Tests.antt =====
-- Socket addresses on concrete values, on a machine whose order of bytes is not the network's.
use emlib.Prelude.{
  ℕ, ◌+◌, ◌*◌, ◌/◌, ◌%◌, ◌≡◌, ◌≤◌, ◌↔◌, refl, Bool, true, false, List, [], ◌∷◌, ◌==◌, arith, All,
  length, replicate,
}
use emlib.Prelude.Int.{pos}
use emlib.Str.Bytewise.{bytewise, bytewise-IsMemcmp}
use emlib.SockAddr.{Net, SockAddr, get_addr, get_port, cmp, bind_random, bind_loop}
use emlib.SockAddr.Order.{IsValid, cmp_lem}
use emlib.SockAddr.Bind.{InRange, Ends, bind_random_lem}

abbrev swap : ℕ → ℕ
swap x = x % 256 * 256 + x / 256

abbrev linux : Net
linux = record { af_unspec = 0; af_inet = 2; af_inet6 = 10; htons = swap; ntohs = swap }

-- 127.0.0.1 with the ports 8000 and 8001
abbrev local : ℕ → SockAddr
local port = record { family = 2; port = port; ipv4 = 127 ∷ 0 ∷ 0 ∷ 1 ∷ []; ipv6 = replicate 16 0 }

local-IsValid : (port : ℕ) → IsValid (local port)
local-IsValid port = record { size4 = refl; size6 = refl }

cmp_lem_example : (cmp linux bytewise (local 16415) (local 16671) ≡ pos 0) ↔ (
    ((local 16415).family ≡ (local 16671).family)
    × (get_addr linux (local 16415) ≡ get_addr linux (local 16671))
    × (get_port linux (local 16415) ≡ get_port linux (local 16671)))
cmp_lem_example =
    cmp_lem linux bytewise (local 16415) (local 16671) bytewise-IsMemcmp (local-IsValid 16415)
      (local-IsValid 16671)

-- Only port 8002, which is stored as 16927, is free.
abbrev only_8002 : SockAddr → Bool
only_8002 a = a.port == 16927

abbrev tries : Bool × List SockAddr
tries = bind_random linux only_8002 (λ n. n) (local 0) (local 16415) 5 4

third : tries.0 ≡ true
unfolding bind_loop
third = refl

-- Without a try nothing is bound, and the result is a success.
no_try : bind_random linux (λ a. false) (λ n. n) (local 0) (local 16415) 5 0 ≡ (true, [])
unfolding bind_loop
no_try = refl

bind_random_lem_example :
    All (InRange linux 8000 5) tries.1 × (length tries.1 ≤ 4) × Ends only_8002 true tries.0 tries.1
bind_random_lem_example =
    bind_random_lem linux only_8002 (λ n. n) (local 0) (local 16415) 5 4 refl (omega arith)
      (omega arith)
