-- ===== src/MsgLog/Tests.antt =====
-- The message buffer at concrete messages.
use linux_acs.Prelude.{Yields, List, set, ◌≡◌, refl, true, some, none, [], ◌∷◌, ◌++◌, arith, map}
use linux_acs.MsgLog.{
  cleared, torn, Reply, nothing, error, message, partial, copied, efault, text, Log, fresh, print,
  read, read_many, contents, IsValid, ReadBuffer, CopiesAll,
}
use linux_acs.MsgLog.Append.{contents-print}
use linux_acs.MsgLog.Reach.{Reach}
use linux_acs.MsgLog.Drain.{read_many-contents}

-- Two slots, both in use.
abbrev full_log : Log
full_log = record { buf = text 7 ∷ text 8 ∷ []; tail_msg = 2; num_msg = 2; print_level = 3 }

full_log-IsValid : IsValid full_log
full_log-IsValid = record { allocated = refl; within = omega arith; some_slot = omega arith }

abbrev exact : ReadBuffer
exact count pos size = copied count

exact-CopiesAll : CopiesAll exact
exact-CopiesAll count pos size h = refl

-- The buffer grows, and the third message follows the two.
print_runs : contents (print true 3 9 full_log) ≡ text 7 ∷ text 8 ∷ text 9 ∷ []
unfolding print
print_runs = refl

contents-print_example : contents (print true 3 9 full_log) ≡ contents full_log ++ text 9 ∷ []
contents-print_example = contents-print 3 9 full_log full_log-IsValid

read_many-contents_example :
    Yields
      (λ (r : List Reply × Log). r.0 ≡ map message (contents full_log))
      (read_many exact 64 2 0 full_log)
    × (read exact 64 2 full_log ≡ some (nothing, full_log))
read_many-contents_example =
    read_many-contents exact exact-CopiesAll 64 (omega arith) full_log full_log-IsValid

-- A start, a message, and a read of it.
abbrev after_print : Log
after_print = print true 1 9 (fresh 3)

abbrev after_read : Log
after_read = record after_print { buf = set after_print.buf 0 cleared }

-- The memory of the user cannot be written, or only 10 bytes of it.
abbrev fails : ReadBuffer
fails count pos size = efault

abbrev short : ReadBuffer
short count pos size = copied 10

-- For the first slot the write is in front of the buffer; for the second the first one is lost.
fails_runs : read fails 64 0 full_log ≡ none
unfolding read
fails_runs = refl

loses_runs :
    read fails 64 1 full_log ≡ some (error, record full_log { buf = cleared ∷ text 8 ∷ [] })
unfolding read
loses_runs = refl

short_runs :
    read short 64 1 full_log
    ≡ some (partial 10 (text 8), record full_log { buf = torn ∷ torn ∷ [] })
unfolding read
short_runs = refl
