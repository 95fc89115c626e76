-- ===== src/MsgLog.antt =====
-- The message buffer of the SDEI module: pal_print of sdei-acs-drv/sdei-acs-pal/files/src/pal_misc.c
-- fills it, and sdei_msg_proc_read of sdei-acs-drv/sdei-acs-drv/files/sdei_acs_drv.c empties it.
pub mod Append
pub mod Drain
pub mod Reach
mod Tests
use linux_acs.Prelude.{
  ◌>>=◌, ℕ, zero, suc, ◌+◌, ◌*◌, ◌%◌, ◌≡◌, ◌≤◌, ◌<◌, Bool, Option, none, some, List, [], ◌∷◌, ◌++◌,
  ltb, leb, ◌==◌, if◌then◌else◌, length, get_or, set, replicate,
}

-- The place of one message: bytes that nobody wrote, a formatted text, zeros, or something of which
-- a part was overwritten with zeros.
pub data Slot : Type 0 where
  unwritten : Slot
  text : (msg : ℕ) → Slot
  cleared : Slot
  torn : Slot

-- g_msg_buf with its slots, g_tail_msg, g_num_msg and g_log_control.print_level.
pub record Log : Type 0 where
  pub buf : List Slot
  pub tail_msg : ℕ
  pub num_msg : ℕ
  pub print_level : ℕ

-- The first sdei_init: MIN_NUM_MSG slots, not cleared.
abbrev pub min_num_msg : ℕ
min_num_msg = 20

unfoldable pub fresh : ℕ → Log
fresh level = record {
  buf = replicate min_num_msg unwritten;
  tail_msg = 0;
  num_msg = min_num_msg;
  print_level = level;
}

-- The full buffer: twice the slots if kmalloc gives them, else back to a slot that is in use.
unfoldable pub make_room : Bool → Log → Log
make_room granted s =
    if leb s.num_msg s.tail_msg
    then (if granted
        then record s { buf = s.buf ++ replicate s.num_msg unwritten; num_msg = s.num_msg * 2 }
        else record s { tail_msg = s.tail_msg % s.num_msg })
    else s

abbrev put_msg : ℕ → Log → Log
put_msg msg s = record s { buf = set s.buf s.tail_msg (text msg); tail_msg = s.tail_msg + 1 }

-- pal_print of a message that vsprintf has formatted; `granted` is what kmalloc does.
unfoldable pub print : Bool → ℕ → ℕ → Log → Log
unfolding make_room
print granted verbosity msg s =
    if leb verbosity s.print_level then put_msg msg (make_room granted s) else s

-- What simple_read_from_buffer of the kernel returns: the bytes that were copied, which are no more
-- than were asked for, or -EFAULT where none could be. The position grows by the bytes copied.
pub data Answer : Type 0 where
  copied : (bytes : ℕ) → Answer
  efault : Answer

-- The answer for a count, a position and the size of the buffer.
abbrev pub ReadBuffer : Type 0
ReadBuffer = ℕ → ℕ → ℕ → Answer

-- The kernel's promise where the memory of the user can be written: what is asked for within the
-- buffer is copied in full.
abbrev pub CopiesAll : ReadBuffer → Type 0
CopiesAll copy = (count pos size : ℕ) → pos + count ≤ size → copy count pos size ≡ copied count

-- What the user gets: the end, a message, the first bytes of one, or an error.
pub data Reply : Type 0 where
  nothing error : Reply
  message : (slot : Slot) → Reply
  partial : (bytes : ℕ) (slot : Slot) → Reply

-- memset of one message's size at `*offset - len`, for a nonzero result at slot `i`, where len is
-- this size. After -EFAULT the offset is where it was, and this is the slot in front; after a part
-- of a message it is the end of the slot in front and the start of this one. `none` is a write in
-- front of the buffer.
unfoldable pub clear_front : ℕ → Log → Option Log
clear_front zero s = none
clear_front (suc j) s = some (record s { buf = set s.buf j cleared })

unfoldable pub clear_across : ℕ → Log → Option Log
clear_across zero s = none
clear_across (suc j) s = some (record s { buf = set (set s.buf j torn) (suc j) torn })

unfoldable pub answered : ℕ → ℕ → Log → Answer → Option (Reply × Log)
unfolding clear_front clear_across
answered size i s efault = clear_front i s >>= λ t. some (error, t)
answered size i s (copied n) =
    let x = get_or s.buf i cleared in
    if n == 0
    then some (nothing, s)
    else (if n == size
        then some (message x, record s { buf = set s.buf i cleared })
        else (clear_across i s >>= λ t. some (partial n x, t)))

-- sdei_msg_proc_read at the offset of slot `i`, with messages of `size` bytes.
unfoldable pub read : ReadBuffer → ℕ → ℕ → Log → Option (Reply × Log)
unfolding answered
read copy size i s =
    let len = if i * size == s.tail_msg * size then 0 else size in
    answered size i s (copy len (i * size) (s.num_msg * size))

-- `n` reads one after the other, from slot `i` on.
unfoldable pub read_many : ReadBuffer → ℕ → ℕ → ℕ → Log → Option (List Reply × Log)
unfolding read
read_many copy size zero i s = some ([], s)
read_many copy size (suc n) i s =
    read copy size i s >>= λ a. read_many copy size n (i + 1) a.1 >>= λ b. some (a.0 ∷ b.0, b.1)

-- The messages that were printed and not overwritten, the oldest first.
abbrev pub take : ℕ → List Slot → List Slot
take zero xs = []
take (suc n) [] = []
take (suc n) (x ∷ xs) = x ∷ take n xs

abbrev pub contents : Log → List Slot
contents s = take s.tail_msg s.buf

pub record IsValid (s : Log) : Type 0 where
  pub allocated : length s.buf ≡ s.num_msg
  pub within : s.tail_msg ≤ s.num_msg
  pub some_slot : 0 < s.num_msg
