-- ===== src/MsgLog/Append.antt =====
-- What pal_print does to the message buffer.
use linux_acs.Prelude.{
  ℕ, zero, suc, ◌%◌, ◌≡◌, ◌≤◌, ◌<◌, refl, ap, Bool, true, false, List, [], ◌∷◌, ◌++◌, arith, leb,
  if◌then◌else◌, length, set, replicate, length-append, length-set, length-replicate,
}
use linux_acs.MsgLog.{Slot, unwritten, text, Log, make_room, print, take, contents, IsValid, fresh}

-- The start of the SDEI module is a valid, empty buffer.
pub fresh-IsValid : (level : ℕ) → IsValid (fresh level) × (contents (fresh level) ≡ [])
unfolding fresh
fresh-IsValid level = (omega arith, refl)

make_room-IsValid :
    (granted : Bool) (s : Log)
    → IsValid s
    → IsValid (make_room granted s)
      × ((make_room granted s).tail_msg < (make_room granted s).num_msg)
unfolding make_room
make_room-IsValid granted s v = ground (
  arith,
  length-append s.buf (replicate s.num_msg unwritten),
  length-replicate s.num_msg unwritten,
)

-- Whatever kmalloc does, pal_print keeps the buffer valid: the buffer has the slots that the count
-- names, and the tail does not pass them.
pub print-IsValid :
    (granted : Bool) (verbosity msg : ℕ) (s : Log)
    → IsValid s
    → IsValid (print granted verbosity msg s)
unfolding print
print-IsValid granted verbosity msg s v =
    let r = make_room granted s in
    ground (arith, make_room-IsValid granted s v, length-set r.buf r.tail_msg (text msg))

take-set :
    (xs : List Slot) (n : ℕ) (x : Slot)
    → n < length xs
    → take (suc n) (set xs n x) ≡ take n xs ++ x ∷ []
take-set [] n x h = absurd (omega arith)
take-set (y ∷ xs) zero x h = refl
take-set (y ∷ xs) (suc n) x h = ap (λ zs. y ∷ zs) (take-set xs n x (omega arith))

take-append : (xs ys : List Slot) (n : ℕ) → n ≤ length xs → take n (xs ++ ys) ≡ take n xs
take-append xs ys zero h = refl
take-append [] ys (suc n) h = absurd (omega arith)
take-append (x ∷ xs) ys (suc n) h = ap (λ zs. x ∷ zs) (take-append xs ys n (omega arith))

contents-make_room : (s : Log) → IsValid s → contents (make_room true s) ≡ contents s
unfolding make_room
contents-make_room s v =
    ground (arith, take-append s.buf (replicate s.num_msg unwritten) s.tail_msg)

-- A message whose verbosity the level lets through is appended to the messages that are there, if
-- kmalloc gives the memory for a larger buffer when it is asked; a message that is not let through
-- leaves the buffer alone.
pub contents-print :
    (verbosity msg : ℕ) (s : Log)
    → IsValid s
    → contents (print true verbosity msg s)
      ≡ (if leb verbosity s.print_level then contents s ++ text msg ∷ [] else contents s)
unfolding print
contents-print verbosity msg s v =
    let r = make_room true s in
    ground (
      arith,
      make_room-IsValid true s v,
      contents-make_room s v,
      take-set r.buf r.tail_msg (text msg),
    )

-- Where kmalloc fails on a full buffer, the message is stored in the first slot, and the messages
-- before it are no longer counted.
pub contents-print_full :
    (verbosity msg : ℕ) (s : Log)
    → IsValid s
    → s.tail_msg ≡ s.num_msg
    → verbosity ≤ s.print_level
    → contents (print false verbosity msg s) ≡ text msg ∷ []
unfolding print make_room
contents-print_full verbosity msg s v full h =
    let e : s.tail_msg % s.num_msg ≡ 0 = rw full (grind arith) in
    ground (arith, e, take-set s.buf 0 (text msg))
