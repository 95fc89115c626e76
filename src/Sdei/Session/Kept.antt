-- ===== src/Sdei/Session/Kept.antt =====
-- What each operation of the SDEI module keeps of its message buffer.
use linux_acs.Prelude.{
  ℕ, zero, suc, ◌*◌, if◌then◌else◌, ◌+◌, ◌≡◌, ◌<◌, ◌≤◌, refl, ap, Bool, true, false, some, List, [],
  ◌∷◌, ◌==◌, arith, Yields, yields, bind-Yields, Bool-cases, inl, inr, leb, length-replicate,
}
use linux_acs.MsgLog.{Log, unwritten, ReadBuffer, Reply, nothing, error, message, partial, IsValid}
use linux_acs.MsgLog.Append.{print-IsValid}
use linux_acs.MsgLog.Reach.{IsHarmless, IsKept, read-IsKept, kept-IsValid}
use linux_acs.Driver.{kmalloc, kfree}
use linux_acs.Driver.Slots.{kfree-slots}
use linux_acs.Sdei.Init.{test_cleanup}
use linux_acs.Sdei.Session.{
  Module, touch, start, finish, grow, module_print, module_read, handed, cleanup,
}

-- What holds in a phase, with the allocations `live` of others.
pub record Clean (live : List ℕ) (s : Module) : Type 0 where
  pub next_positive : 0 < s.heap.next
  pub same : s.heap.live ≡ live
  pub within : s.log.tail_msg ≤ s.log.num_msg
  pub some_slot : 0 < s.log.num_msg

pub record Running (live : List ℕ) (s : Module) : Type 0 where
  pub valid : IsValid s.log
  pub positive : 0 < s.msg_buf
  pub below : s.msg_buf < s.heap.next
  pub owned : s.heap.live ≡ s.msg_buf ∷ live

touch-Running : (live : List ℕ) (s : Module) → Running live s → touch s ≡ some s
unfolding touch
touch-Running live s r = rw r.owned (ground arith)

pub start-Running :
    (live : List ℕ) (level : ℕ) (s : Module) → Clean live s → Running live (start level true s)
unfolding start
start-Running live level s c = record {
  valid = record {
    allocated = length-replicate s.log.num_msg unwritten;
    within = c.within;
    some_slot = c.some_slot;
  };
  positive = c.next_positive;
  below = omega arith;
  owned = ap (λ xs. s.heap.next ∷ xs) c.same;
}

-- The buffer after pal_print made room.
abbrev IsOwned : List ℕ → Module → Type 0
IsOwned live t = (0 < t.msg_buf) × (t.msg_buf < t.heap.next) × (t.heap.live ≡ t.msg_buf ∷ live)

replaced :
    (live : List ℕ) (s : Module)
    → Running live s
    → kfree s.msg_buf (record { next = s.heap.next + 1; live = s.heap.next ∷ s.heap.live })
      ≡ some (record { next = s.heap.next + 1; live = s.heap.next ∷ live })
replaced live s r =
    let freed =
      kfree-slots true s.msg_buf (s.heap.next + 1) ((true, s.heap.next) ∷ []) live r.positive
        (omega arith, tt) in
    rw r.owned freed

grow-IsOwned :
    (live : List ℕ) (granted : Bool) (s : Module)
    → Running live s
    → Yields (IsOwned live) (grow granted s)
unfolding grow kmalloc
grow-IsOwned live granted s r = elim (Bool-cases (leb s.log.num_msg s.log.tail_msg)) [
  | inr e ↦ rw e (yields (r.positive, r.below, r.owned))
  | inl e ↦ elim (Bool-cases granted) [
    | inr g ↦ rw (e, g) (yields (r.positive, r.below, r.owned))
    | inl g ↦
        let there : (s.heap.next == 0) ≡ false = ground arith in
        rw (e, g, there, replaced live s r) (yields (omega arith, omega arith, refl))
  ]
]

pub print-Running :
    (live : List ℕ) (granted : Bool) (verbosity msg : ℕ) (s : Module)
    → Running live s
    → Yields (Running live) (module_print granted verbosity msg s)
unfolding module_print
print-Running live granted verbosity msg s r = elim (Bool-cases (leb verbosity s.log.print_level)) [
  | inr e ↦ rw e (yields r)
  | inl e ↦
      rw (e, touch-Running live s r)
        (bind-Yields (grow-IsOwned live granted s r) λ t o. yields (record {
          valid = print-IsValid granted verbosity msg s.log r.valid;
          positive = o.0;
          below = o.1;
          owned = o.2;
        }))
]

-- What the copy of the first slot to the user must do, whatever the size of the buffer: all that was
-- asked for, or nothing.
abbrev pub FirstCopied : ReadBuffer → ℕ → Type 0
FirstCopied copy size =
    (total : ℕ) → IsHarmless size 0 (copy 0 0 total) × IsHarmless size 0 (copy size 0 total)

copy-IsHarmless :
    (copy : ReadBuffer) (size : ℕ)
    → FirstCopied copy size
    → (i tail total : ℕ)
    → IsHarmless size i (copy (if i * size == tail then 0 else size) (i * size) total)
unfolding IsHarmless
copy-IsHarmless copy size first (suc j) tail total = inl (λ q. cc)
copy-IsHarmless copy size first zero tail total = either (0 * size) (omega arith) (0 * size == tail)
  where
    either :
        (pos : ℕ)
        → pos ≡ 0
        → (b : Bool) → IsHarmless size 0 (copy (if b then 0 else size) pos total)
    either pos e true = rw e (first total).0
    either pos e false = rw e (first total).1

logged-Running :
    (live : List ℕ) (s : Module)
    → Running live s
    → (l : Log) → IsKept s.log l
    → Running live (record s { log = l })
logged-Running live s r l k = record {
  valid = kept-IsValid s.log l k r.valid;
  positive = r.positive;
  below = r.below;
  owned = r.owned;
}

handed-Running :
    (live : List ℕ) (s : Module)
    → Running live s
    → (x : Reply) (l : Log) → IsKept s.log l
    → Yields (λ (a : Reply × Module). Running live a.1) (handed s x l)
handed-Running live s r nothing l k = yields r
handed-Running live s r error l k =
    rw (touch-Running live s r) (yields (logged-Running live s r l k))
handed-Running live s r (message y) l k =
    rw (touch-Running live s r) (yields (logged-Running live s r l k))
handed-Running live s r (partial n y) l k =
    rw (touch-Running live s r) (yields (logged-Running live s r l k))

pub read-Running :
    (live : List ℕ) (copy : ReadBuffer) (size i : ℕ)
    → FirstCopied copy size
    → (s : Module) → Running live s
    → Yields (λ (a : Reply × Module). Running live a.1) (module_read copy size i s)
unfolding module_read
read-Running live copy size i first s r =
    let h = copy-IsHarmless copy size first i (s.log.tail_msg * size) (s.log.num_msg * size) in
    bind-Yields (read-IsKept copy size i s.log h) λ a k. handed-Running live s r a.0 a.1 k

pub finish-Running : (live : List ℕ) (s : Module) → Running live s → Running live (finish s)
unfolding finish
finish-Running live s r = record {
  valid = r.valid;
  positive = r.positive;
  below = r.below;
  owned = r.owned;
}

-- The module without its buffer.
abbrev pub given_back : List ℕ → Module → Module
given_back live s = record s { heap = record { next = s.heap.next; live = live } }

pub cleanup-given_back :
    (live : List ℕ) (s : Module)
    → Running live s
    → cleanup test_cleanup s ≡ some (given_back live s)
unfolding cleanup
cleanup-given_back live s r =
    let freed = kfree-slots true s.msg_buf s.heap.next [] live r.positive tt in
    rw (r.owned, freed) refl

pub given_back-Clean :
    (live : List ℕ) (s : Module) → Running live s → Clean live (given_back live s)
given_back-Clean live s r = record {
  next_positive = omega arith;
  same = refl;
  within = r.valid.within;
  some_slot = r.valid.some_slot;
}
