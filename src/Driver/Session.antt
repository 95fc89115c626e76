-- ===== src/Driver/Session.antt =====
-- A user that keeps to the order of the commands: the tables are created, used and freed.
use linux_acs.Prelude.{
  u32, ◌+◌, Bool, true, false, ◌++◌, length, length-append, append_assoc, weaken-Yields, arith, ℕ,
  ◌<◌, ◌≡◌, refl, sym, ap, subst, ◌∙◌, Option, some, List, [], ◌∷◌, ◌>>=◌, Yields, yields,
  bind-Yields, Yields-≡,
}
use linux_acs.Driver.{
  Params, Drv, Heap, Val, Grants, create_info_tables, free_info_tables, create_tables, free_tables,
  execute_command, proc_write, params_size, status_available,
}
use linux_acs.Driver.Commands.{
  PlainCommand, runs, stores, plain_api, after_plain, execute_command-plain,
}
use linux_acs.Driver.Slots.{slot}
use linux_acs.Driver.Memory.{
  shared_at, made, filled, after_create, create_tables-after_create, freed, free_tables-made,
  end_at-positive,
}

-- Whether the tables are there, and if so, whether there is shared memory beside them.
pub data Phase : Type 0 where
  idle : Phase
  ready : (shared : Bool) → Phase

-- A request, with what the allocations of its command return.
abbrev pub Request : Type 0
Request = Grants × Params

abbrev pub count : Bool → ℕ
count true = 1
count false = 0

-- Requests that lead from one phase to another, and the shared memory that they leave behind: one
-- block for each creation that was granted one and has been freed since.
pub data Follows : Phase → List Request → Phase → ℕ → Type 0 where
  stop : {p : Phase} → Follows p [] p 0
  creates :
      {r : Request} {rs : List Request} {q : Phase} {n : ℕ}
      → r.1.api_num ≡ create_info_tables
      → Follows (ready r.0.shared) rs q n
      → Follows idle (r ∷ rs) q n
  frees :
      {b : Bool} {r : Request} {rs : List Request} {q : Phase} {n : ℕ}
      → r.1.api_num ≡ free_info_tables
      → Follows idle rs q n
      → Follows (ready b) (r ∷ rs) q (n + count b)
  uses :
      {p : Phase} {r : Request} {rs : List Request} {q : Phase} {n : ℕ}
      → (c : PlainCommand) → r.1.api_num ≡ plain_api c
      → Follows p rs q n
      → Follows p (r ∷ rs) q n

-- The requests, one after the other; each is a write of all parameters.
abbrev pub write_all : Val → List Request → Drv → Option Drv
write_all v [] s = some s
write_all v ((g, r) ∷ rs) s = proc_write v g params_size r s >>= λ a. write_all v rs a.1

-- What holds of the heap in a phase, with the allocations `live` of others.
pub record Owns (shared : Bool) (live : List ℕ) (s : Drv) : Type 0 where
  pub grants : Grants
  pub as_granted : grants.shared ≡ shared
  pub base : ℕ
  pub positive : 0 < base
  pub ptrs : s.ptrs ≡ made grants base
  pub heap : s.heap ≡ filled grants base live

pub record Clean (live : List ℕ) (s : Drv) : Type 0 where
  pub next_positive : 0 < s.heap.next
  pub same : s.heap.live ≡ live

abbrev pub InPhase : Phase → List ℕ → Drv → Type 0
InPhase idle live s = Clean live s
InPhase (ready b) live s = Owns b live s

abbrev with_level : Drv → ℕ → Drv
with_level s api = record s {
  print_level = u32 s.params.arg1;
  params = record s.params { api_num = api };
}

-- One command.
execute_command-create :
    (v : Val) (g : Grants) (s : Drv)
    → s.params.api_num ≡ create_info_tables
    → execute_command v g s ≡ some (after_create g (with_level s create_info_tables))
unfolding execute_command
execute_command-create v g s e =
    let made_tables = create_tables-after_create g (with_level s create_info_tables) in
    rw (e, made_tables) refl

pub create-Owns :
    (v : Val) (g : Grants) (live : List ℕ) (s : Drv)
    → s.params.api_num ≡ create_info_tables
    → Clean live s
    → Yields (Owns g.shared live) (execute_command v g s)
create-Owns v g live s e c = Yields-≡ (execute_command-create v g s e) (record {
  grants = g;
  as_granted = refl;
  base = s.heap.next;
  positive = c.next_positive;
  ptrs = refl;
  heap = ap (filled g s.heap.next) c.same;
})

execute_command-free :
    (v : Val) (g : Grants) {b : Bool} (live : List ℕ) (s : Drv)
    → s.params.api_num ≡ free_info_tables
    → (o : Owns b live s)
    → execute_command v g s ≡ some (freed o.grants o.base live (with_level s free_info_tables))
unfolding execute_command
execute_command-free v g live s e o =
    let f =
      free_tables-made o.grants o.base live (with_level s free_info_tables) o.positive o.ptrs
        o.heap in
    rw (e, f) refl

-- The allocations after the tables were freed.
abbrev pub rest_of : {b : Bool} {live : List ℕ} {s : Drv} → Owns b live s → List ℕ
rest_of {b} {live} o = slot b (shared_at o.grants o.base) live

pub free-Clean :
    (v : Val) (g : Grants) {b : Bool} (live : List ℕ) (s : Drv)
    → s.params.api_num ≡ free_info_tables
    → (o : Owns b live s) → Yields (Clean (rest_of o)) (execute_command v g s)
free-Clean v g live s e o = Yields-≡ (execute_command-free v g live s e o) (record {
  next_positive = end_at-positive o.grants o.base o.positive;
  same = ap (λ b. slot b (shared_at o.grants o.base) live) o.as_granted;
})

pub plain-InPhase :
    (v : Val) (g : Grants) (live : List ℕ) (p : Phase) (c : PlainCommand) (s : Drv)
    → s.params.api_num ≡ plain_api c
    → InPhase p live s
    → Yields (InPhase p live) (execute_command v g s)
plain-InPhase v g live p c s e i = Yields-≡ (execute_command-plain v g c s e) (kept p c i)
  where
    same_memory :
        (c : PlainCommand)
        → ((after_plain v c s).ptrs ≡ s.ptrs) × ((after_plain v c s).heap ≡ s.heap)
    same_memory (runs suite) = (refl, refl)
    same_memory (stores linux_acs.Driver.Commands.skip_tests) = (refl, refl)
    same_memory (stores linux_acs.Driver.Commands.software_view) = (refl, refl)

    kept : (p : Phase) (c : PlainCommand) → InPhase p live s → InPhase p live (after_plain v c s)
    kept idle c i =
        let m = same_memory c in
        record {
          next_positive = subst (λ (h : Heap). 0 < h.next) (sym m.1) i.next_positive;
          same = ap (λ (h : Heap). h.live) m.1 ∙ i.same;
        }
    kept (ready b) c i =
        let m = same_memory c in
        record {
          grants = i.grants;
          as_granted = i.as_granted;
          base = i.base;
          positive = i.positive;
          ptrs = m.0 ∙ i.ptrs;
          heap = m.1 ∙ i.heap;
        }

-- The globals when the command of a request starts.
abbrev pub entered : Params → Drv → Drv
entered r s = record s { len = params_size; params = r }

pub entered-InPhase :
    (live : List ℕ) (r : Params) (s : Drv) (p : Phase)
    → InPhase p live s
    → InPhase p live (entered r s)
entered-InPhase live r s idle i = record { next_positive = i.next_positive; same = i.same }
entered-InPhase live r s (ready b) i = record {
  grants = i.grants;
  as_granted = i.as_granted;
  base = i.base;
  positive = i.positive;
  ptrs = i.ptrs;
  heap = i.heap;
}

-- A write of all parameters is the command in them.
write-InPhase :
    (v : Val) (g : Grants) (live : List ℕ) (q : Phase) (r : Params) (s : Drv)
    → Yields (InPhase q live) (execute_command v g (entered r s))
    → Yields (λ (a : ℕ × Drv). InPhase q live a.1) (proc_write v g params_size r s)
unfolding proc_write
write-InPhase v g live q r s y = bind-Yields y λ t i. yields i

-- A phase, with blocks of shared memory that were left behind.
abbrev pub Leaves : Phase → List ℕ → ℕ → Drv → Type 0
Leaves q live n s = (leaked : List ℕ) × (length leaked ≡ n) × InPhase q (leaked ++ live) s

pub slot-Leaves :
    (q : Phase) (b : Bool) (k n : ℕ) (live : List ℕ) (s : Drv)
    → Leaves q (slot b k live) n s
    → Leaves q live (n + count b) s
slot-Leaves q false k n live s (leaked, e, i) = (leaked, omega (arith, e), i)
slot-Leaves q true k n live s (leaked, e, i) = (
  leaked ++ k ∷ [],
  length-append leaked (k ∷ []) ∙ ap (λ m. m + 1) e,
  subst (λ xs. InPhase q xs s) (sym (append_assoc leaked (k ∷ []) live)) i,
)

-- Whichever allocations of whichever request fail, a user whose requests create the tables, then run
-- suites and set lists, and free the tables before they are created again, never frees memory that
-- is not allocated, whatever the requests in between and the suites are. What is allocated in the
-- end, beside the tables and their shared memory if they are there, is what was allocated before and
-- one block of shared memory for each creation that was granted one and whose tables were freed.
pub write_all-InPhase :
    (v : Val) (live : List ℕ) (p q : Phase) (n : ℕ) (rs : List Request) (s : Drv)
    → Follows p rs q n
    → InPhase p live s
    → Yields (Leaves q live n) (write_all v rs s)
write_all-InPhase v live p q n [] s stop i = yields ([], refl, i)
write_all-InPhase v live idle q n ((g, r) ∷ rs) s (creates e f) i =
    bind-Yields
      (write-InPhase v g live (ready g.shared) r s
        (create-Owns v g live (entered r s) e (entered-InPhase live r s idle i)))
      λ a j. write_all-InPhase v live (ready g.shared) q n rs a.1 f j
write_all-InPhase v live (ready b) q m ((g, r) ∷ rs) s (frees {n = n} e f) i =
    let o = entered-InPhase live r s (ready b) i in
    let rest = rest_of o in
    bind-Yields (write-InPhase v g rest idle r s (free-Clean v g live (entered r s) e o)) λ a j.
      weaken-Yields (write_all-InPhase v rest idle q n rs a.1 f j)
        (slot-Leaves q b (shared_at o.grants o.base) n live)
write_all-InPhase v live p q n ((g, r) ∷ rs) s (uses c e f) i =
    bind-Yields
      (write-InPhase v g live p r s
        (plain-InPhase v g live p c (entered r s) e (entered-InPhase live r s p i)))
      λ a j. write_all-InPhase v live p q n rs a.1 f j
