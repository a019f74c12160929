-- ===== src/Errno/Tests.antt =====
-- The registry of src/errno.c with two handlers.
use emlib.Prelude.{◌≡◌, refl, none, some, List, [], ◌∷◌, Bytes, arith, mem_write}
use emlib.Prelude.Int.{pos, negsuc}
use emlib.Errno.{Handler, eexists, succ, register_strerror, strerror}
use emlib.Errno.Text.{CTexts, Answer, err_str, em_strerror, finish}
use emlib.Errno.Ranges.{HasTexts, Printed, em_strerror_lem}

abbrev two_handlers : List Handler
two_handlers =
    record { begin = 170000; end = 170100; strerror = 4096 }
    ∷ (record { begin = 180000; end = 180050; strerror = 8192 } ∷ [])

register_overlapping : register_strerror two_handlers 170050 100 4096 ≡ (eexists, two_handlers)
unfolding register_strerror
register_overlapping = refl

-- The check looks at the two ends of the new range only.
register_enclosing : (register_strerror two_handlers 175000 10000 9000).0 ≡ succ
unfolding register_strerror
register_enclosing = refl

-- "%d" prints "#", and the system says "os" for all codes.
abbrev short_texts : CTexts
short_texts = record { decimal = λ code. 35 ∷ []; os_strerror = λ code. some (111 ∷ 115 ∷ []) }

short_texts-HasTexts : HasTexts short_texts
short_texts-HasTexts = record {
  text = λ code. 111 ∷ 115 ∷ [];
  found = λ code. refl;
  nonempty = λ code. omega arith;
}

abbrev answer : Answer
answer f code mem size = (none, 0)

abbrev buffer : Bytes
buffer = 7 ∷ 7 ∷ 7 ∷ 7 ∷ []

-- 70008 is EM_EBUG, "BUG DETECTED! (EM_EBUG)", of which "BUG" is left in four bytes.
bug_text :
    em_strerror short_texts answer two_handlers (pos 70008) buffer 4
    ≡ (some (66 ∷ 85 ∷ 71 ∷ 0 ∷ []), 3)
unfolding em_strerror strerror finish mem_write err_str
bug_text = refl

-- -1, which EM_RETURN_OS_ERROR gives for 0
minus_one :
    em_strerror short_texts answer two_handlers (negsuc 0) buffer 4
    ≡ (some (85 ∷ 110 ∷ 107 ∷ 0 ∷ []), 3)
unfolding em_strerror strerror finish mem_write
minus_one = refl

em_strerror_lem_example :
    Printed short_texts answer two_handlers buffer 4
      (em_strerror short_texts answer two_handlers (pos 70008) buffer 4)
      (pos 70008)
em_strerror_lem_example =
    em_strerror_lem short_texts answer two_handlers (pos 70008) buffer 4 short_texts-HasTexts
      (omega arith) (omega arith)

-- For a code of the system without a text, the old bytes of the buffer are returned.
old_bytes :
    em_strerror
      (record short_texts { os_strerror = λ code. none })
      answer
      two_handlers
      (pos 120005)
      buffer
      4
    ≡ (some (0 ∷ 7 ∷ 7 ∷ 0 ∷ []), 3)
unfolding em_strerror strerror finish mem_write
old_bytes = refl
