-- ===== src/Sdei/Session/Tests.antt =====
-- Two runs of the SDEI module, with one message in the first.
use linux_acs.Prelude.{
  zero, suc, ◌+◌, ◌-◌, ◌≡◌, refl, true, false, none, some, List, [], ◌∷◌, map, replicate, set, leb,
  if◌then◌else◌, Yields, arith,
}
use linux_acs.MsgLog.{
  unwritten, text, Log, Reply, message, copied, efault, ReadBuffer, CopiesAll, read_many,
}
use linux_acs.Driver.{Heap}
use linux_acs.Sdei.Init.{test_cleanup}
use linux_acs.Sdei.Session.{
  Module, loaded, test_complete, start, module_print, cleanup, sdei_proc_read,
}
use linux_acs.Sdei.Session.Kept.{Running}
use linux_acs.Sdei.Session.Phases.{Event, starts, prints, finishes, reads, cleans, steps}
use linux_acs.Sdei.Session.Restart.{start-cleanup}

-- simple_read_from_buffer, and messages of 108 bytes.
abbrev copy : ReadBuffer
copy count pos size = copied (if leb (pos + count) size then count else size - pos)

copy-CopiesAll : CopiesAll copy
copy-CopiesAll count pos size h = ground arith

-- Only the first message can be copied.
abbrev first_copy : ReadBuffer
first_copy count zero size = copied count
first_copy count (suc pos) size = efault

abbrev heap : Heap
heap = record { next = 9; live = 8 ∷ [] }

-- A message that is let through and one that is not, two reads, then another run.
abbrev events : List Event
events =
    starts 3
    ∷ prints false 1 7
    ∷ reads 0
    ∷ prints true 4 5
    ∷ reads 1
    ∷ finishes
    ∷ cleans
    ∷ starts 2
    ∷ cleans
    ∷ []

-- The module after its first run.
abbrev ran : Module
ran = record {
  log = record {
    buf = set (replicate 20 unwritten) 0 (text 7);
    tail_msg = 1;
    num_msg = 20;
    print_level = 3;
  };
  msg_buf = 9;
  completion_flag = test_complete;
  heap = record { next = 10; live = 9 ∷ 8 ∷ [] };
}

ran_runs : steps copy 108 (starts 3 ∷ prints false 1 7 ∷ finishes ∷ []) (loaded heap) ≡ some ran
unfolding start module_print linux_acs.Sdei.Session.finish
ran_runs = refl

ran-Running : Running (8 ∷ []) ran
ran-Running = record {
  valid = record { allocated = refl; within = omega arith; some_slot = omega arith };
  positive = omega arith;
  below = omega arith;
  owned = refl;
}

start-cleanup_example :
    (t : Module) × (cleanup test_cleanup ran ≡ some t)
    × (sdei_proc_read (start 2 true t) ≡ test_complete)
    × Yields
        (λ (r : List Reply × Log). r.0 ≡ map message (replicate 1 unwritten))
        (read_many copy 108 1 0 (start 2 true t).log)
start-cleanup_example =
    start-cleanup copy copy-CopiesAll 108 (omega arith) (8 ∷ []) 2 ran ran-Running refl

-- A buffer that is not granted is written to, and so is one that was freed.
refused_runs : steps copy 108 (prints true 1 7 ∷ []) (start 3 false (loaded heap)) ≡ none
unfolding start module_print
refused_runs = refl

freed_runs : steps copy 108 (cleans ∷ prints true 1 7 ∷ []) ran ≡ none
unfolding cleanup module_print
freed_runs = refl
