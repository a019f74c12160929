-- ===== src/Errno/Lookup.antt =====
-- What registration in src/errno.c does to the answers of `em_strerror`.
use emlib.Prelude.{
  ℕ, ◌+◌, ◌≤◌, ◌<◌, ◌≡◌, refl, Option, none, some, true, false, ◌||◌, List, [], ◌∷◌, ◌++◌, arith,
  ltb, leb, ◌==◌, if◌then◌else◌, length, ◌⊎◌, inl, inr, Bool-cases, length-append,
}
use emlib.Prelude.Int.{pos}
use emlib.Errno.{
  Handler, RegisterStatus, succ, Printer, unknown, handler_text, in_range, check_handlers,
  answer_or_add, register_strerror, find_handler, strerror, max_err_msg_handler, errno_start_user,
}

abbrev pub or_unknown : Printer → Printer → Printer
or_unknown unknown later = later
or_unknown p later = p

-- A handler at the end is asked after all others.
find_handler-append :
    (hs : List Handler) (h : Handler) (code : ℕ)
    → find_handler (hs ++ (h ∷ [])) code
      ≡ or_unknown (find_handler hs code) (find_handler (h ∷ []) code)
find_handler-append [] h code = refl
find_handler-append (g ∷ hs) h code = elim (Bool-cases (in_range code g.begin g.end)) [
  | inl e ↦ rw e refl
  | inr e ↦ rw e (find_handler-append hs h code)
]

lt_of_ltb : (a b : ℕ) → ltb a b ≡ true → a < b
lt_of_ltb a b h = ground arith

-- The codes that a new handler answers.
abbrev pub added_answer : ℕ → ℕ → ℕ → ℕ → Printer
added_answer start space f code =
    if in_range code start (start + space) then handler_text f else unknown

user_code :
    (code : ℕ)
    → ltb code 170000 ≡ false
    → ((code == 0) ≡ false) × (ltb code 70000 ≡ false) × (ltb code 120000 ≡ false)
user_code code high = (ground arith, ground arith, ground arith)

strerror-append :
    (hs : List Handler) (start space f code : ℕ)
    → leb 170000 start ≡ true
    → strerror
        (hs ++ ((record { begin = start; end = start + space; strerror = f }) ∷ []))
        (pos code)
      ≡ or_unknown (strerror hs (pos code)) (added_answer start space f code)
unfolding strerror
strerror-append hs start space f code user = elim (Bool-cases (ltb code 170000)) [
  | inl low ↦ ground arith
  | inr high ↦
      let (a, b, c) = user_code code high in
      rw (a, b, c, high)
        (find_handler-append hs (record { begin = start; end = start + space; strerror = f }) code)
]

-- What registration answered, with the new handlers.
abbrev pub Registered : List Handler → ℕ → ℕ → ℕ → RegisterStatus × List Handler → Type 0
Registered hs start space f r =
    (length r.1 ≤ max_err_msg_handler)
    × ((r.1 ≡ hs)
        ⊎ ((r.0 ≡ succ)
            × ((code : ℕ)
                → strerror r.1 (pos code)
                  ≡ or_unknown (strerror hs (pos code)) (added_answer start space f code))))

added-Registered :
    (hs : List Handler) (start space f : ℕ) (checked : Option RegisterStatus)
    → ltb (length hs) max_err_msg_handler ≡ true
    → leb 170000 start ≡ true
    → Registered hs start space f (answer_or_add hs start space f checked)
added-Registered hs start space f (some status) room user = (ground arith, inl refl)
added-Registered hs start space f none room user = (
  omega (
    arith,
    length-append hs ((record { begin = start; end = start + space; strerror = f }) ∷ []),
    lt_of_ltb (length hs) 10 room,
  ),
  inr (refl, λ code. strerror-append hs start space f code user),
)

-- em_register_strerror keeps to the ten handlers that there is room for, and it leaves them as they
-- are, or it answers EM_SUCC and em_strerror then answers every code as before, except that a code
-- in the new range that had no answer is printed by the function registered.
pub register_strerror_lem :
    (hs : List Handler) (start space f : ℕ)
    → length hs ≤ max_err_msg_handler
    → Registered hs start space f (register_strerror hs start space f)
unfolding register_strerror
register_strerror_lem hs start space f le = elim (Bool-cases (start == 0 || space == 0 || f == 0)) [
  | inl e ↦ rw e (le, inl refl)
  | inr e ↦ elim (Bool-cases (ltb (length hs) max_err_msg_handler)) [
    | inr full ↦ rw (e, full) (le, inl refl)
    | inl room ↦ elim (Bool-cases (leb errno_start_user start)) [
      | inr low ↦ rw (e, room, low) (le, inl refl)
      | inl user ↦
          rw (e, room, user)
            (added-Registered hs start space f (check_handlers hs start space f) room user)
    ]
  ]
]
