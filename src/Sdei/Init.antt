-- ===== src/Sdei/Init.antt =====
-- sdei_init, sdei_proc_write and sdei_msg_proc_write of sdei_acs_drv.c, with the five functions that
-- create the info tables.
use linux_acs.Prelude.{
  ℕ, Option, none, some, ltb, ◌≤◌, ◌≡◌, ◌≢◌, refl, ap, Bool, true, false, Bool-cases, ◌⊎◌, inl, inr,
  List, All, [], ◌∷◌, ◌++◌, ◌==◌, if◌then◌else◌, arith,
}

pub data InfoTable : Type 0 where
  gic pe event watchdog timer : InfoTable

-- The calls of the validation layer that the module makes, in their order.
pub data Call : Type 0 where
  create : (table : InfoTable) → Call
  free : (table : InfoTable) → Call
  initialization shared_mem_alloc test_execute shared_mem_free free_msg_buf : Call

-- What kzalloc grants for a table, what the layer returns for creating one, and what it returns for
-- val_sdei_initialization; and sizeof(sdei_control_t), whose members are types of the layer.
pub record World : Type 0 where
  pub granted : InfoTable → Bool
  pub status : InfoTable → ℕ
  pub init_status : ℕ
  pub control_size : ℕ

module _ (w : World) where
  -- create_gic_infotable and its four likes; the one for timers has no status.
  unfoldable pub create_infotable : InfoTable → ℕ × List Call
  create_infotable timer = if w.granted timer then (0, create timer ∷ []) else (1, [])
  create_infotable t = if w.granted t then (w.status t, create t ∷ []) else (1, [])

  -- A call of sdei_init and `if (ret) return ret`, then what follows.
  unfoldable pub and_then : ℕ × List Call → ℕ × List Call → ℕ × List Call
  and_then (ret, cs) (ret', cs') = if ret == 0 then (ret', cs ++ cs') else (ret, cs)

  unfoldable pub sdei_init : ℕ × List Call
  unfolding create_infotable and_then
  sdei_init = and_then (create_infotable gic) (
      and_then (create_infotable pe) (
        and_then (create_infotable event) (
          and_then (create_infotable watchdog)
            (and_then (create_infotable timer) (w.init_status, initialization ∷ [])))))

  -- sdei_proc_write behind the copy from the user: the value returned, g_test_completion_flag, and
  -- the calls.
  unfoldable pub after_copy : ℕ → ℕ × ℕ × List Call
  unfolding sdei_init
  after_copy size =
      let (ret, cs) = sdei_init in
      if ret == 0
      then (size, 0xFFFFFFFF, cs ++ shared_mem_alloc ∷ test_execute ∷ shared_mem_free ∷ [])
      else (size, 0xFFFFFFFF, cs)

  -- sdei_proc_write of `size` bytes, which are copied to a variable on the stack. `none` where more
  -- are written than that has; nothing in the code prevents it.
  unfoldable pub sdei_proc_write : ℕ → Option (ℕ × ℕ × List Call)
  unfolding after_copy
  sdei_proc_write size = if ltb w.control_size size then none else some (after_copy size)

-- SDEI_TEST_CLEANUP and the calls of sdei_msg_proc_write for a flag word.
abbrev pub test_cleanup : ℕ
test_cleanup = 0xAAAAAAAA

unfoldable pub sdei_msg_proc_write : ℕ → List Call
sdei_msg_proc_write flag =
    if flag == test_cleanup
    then free pe ∷ free gic ∷ free event ∷ free watchdog ∷ free timer ∷ free_msg_buf ∷ []
    else []

-- All tables could be created, and the layer started.
pub record IsReady (w : World) : Type 0 where
  pub memory : (t : InfoTable) → w.granted t ≡ true
  pub tables : (t : InfoTable) → (t ≡ timer) ⊎ (w.status t ≡ 0)
  pub started : w.init_status ≡ 0

status_of : (w : World) (t : InfoTable) → IsReady w → t ≢ timer → w.status t ≡ 0
status_of w t r n = elim (r.tables t) [ inl e ↦ absurd (n e) | inr z ↦ z ]

abbrev pub in_order : List Call
in_order =
    create gic
    ∷ create pe
    ∷ create event
    ∷ create watchdog
    ∷ create timer
    ∷ initialization
    ∷ shared_mem_alloc
    ∷ test_execute
    ∷ shared_mem_free
    ∷ []

ready_run : (w : World) (size : ℕ) → IsReady w → after_copy w size ≡ (size, 0xFFFFFFFF, in_order)
unfolding after_copy
ready_run w size r =
    rw
      (
        r.memory gic,
        r.memory pe,
        r.memory event,
        r.memory watchdog,
        r.memory timer,
        status_of w gic r (λ e. cc),
        status_of w pe r (λ e. cc),
        status_of w event r (λ e. cc),
        status_of w watchdog r (λ e. cc),
        r.started,
      )
      refl

-- The start comes to nothing but creations and the start of the layer.
abbrev Quiet : List Call → Type 0
Quiet cs = All (λ c. c ≢ test_execute) cs

Quiet-append : (xs ys : List Call) → Quiet xs → Quiet ys → Quiet (xs ++ ys)
Quiet-append [] ys p q = q
Quiet-append (x ∷ xs) ys p q = (p.0, Quiet-append xs ys p.1 q)

and_then-Quiet :
    (w : World) (s t : ℕ × List Call) → Quiet s.1 → Quiet t.1 → Quiet (and_then w s t).1
unfolding and_then
and_then-Quiet w s t p q = elim (Bool-cases (s.0 == 0)) [
  | inl e ↦ rw e (Quiet-append s.1 t.1 p q)
  | inr e ↦ rw e p
]

and_then-zero : (w : World) (s t : ℕ × List Call) → (and_then w s t).0 ≡ 0 → (s.0 ≡ 0) × (t.0 ≡ 0)
unfolding and_then
and_then-zero w s t h = ground (arith, h)

abbrev made_of : InfoTable → Bool → ℕ → ℕ × List Call
made_of t g z = if g then (z, create t ∷ []) else (1, [])

by_grant : (t : InfoTable) (g : Bool) (z : ℕ) → Quiet (made_of t g z).1
by_grant t true z = (λ e. cc, tt)
by_grant t false z = tt

by_zero : (t : InfoTable) (g : Bool) (z : ℕ) → (made_of t g z).0 ≡ 0 → (g ≡ true) × (z ≡ 0)
by_zero t true z h = (refl, h)
by_zero t false z h = absurd (omega arith)

abbrev Made : World → InfoTable → Type 0
Made w t = (w.granted t ≡ true) × ((t ≡ timer) ⊎ (w.status t ≡ 0))

each :
    (w : World)
    → Made w gic
    → Made w pe
    → Made w event
    → Made w watchdog
    → Made w timer
    → (t : InfoTable) → Made w t
each w a b c d e gic = a
each w a b c d e pe = b
each w a b c d e event = c
each w a b c d e watchdog = d
each w a b c d e timer = e

from_tables : (w : World) → w.init_status ≡ 0 → ((t : InfoTable) → Made w t) → IsReady w
from_tables w z made = record { memory = λ t. (made t).0; tables = λ t. (made t).1; started = z }

create_infotable-Quiet : (w : World) (t : InfoTable) → Quiet (create_infotable w t).1
unfolding create_infotable
create_infotable-Quiet w gic = by_grant gic (w.granted gic) (w.status gic)
create_infotable-Quiet w pe = by_grant pe (w.granted pe) (w.status pe)
create_infotable-Quiet w event = by_grant event (w.granted event) (w.status event)
create_infotable-Quiet w watchdog = by_grant watchdog (w.granted watchdog) (w.status watchdog)
create_infotable-Quiet w timer = by_grant timer (w.granted timer) 0

create_infotable-zero :
    (w : World) (t : InfoTable)
    → (create_infotable w t).0 ≡ 0
    → (w.granted t ≡ true) × ((t ≡ timer) ⊎ (w.status t ≡ 0))
unfolding create_infotable
create_infotable-zero w gic h =
    let (g, z) = by_zero gic (w.granted gic) (w.status gic) h in (g, inr z)
create_infotable-zero w pe h = let (g, z) = by_zero pe (w.granted pe) (w.status pe) h in (g, inr z)
create_infotable-zero w event h =
    let (g, z) = by_zero event (w.granted event) (w.status event) h in (g, inr z)
create_infotable-zero w watchdog h =
    let (g, z) = by_zero watchdog (w.granted watchdog) (w.status watchdog) h in (g, inr z)
create_infotable-zero w timer h = let (g, z) = by_zero timer (w.granted timer) 0 h in (g, inl refl)

sdei_init-Quiet : (w : World) → Quiet (sdei_init w).1
unfolding sdei_init
sdei_init-Quiet w =
    let made = create_infotable-Quiet w in
    and_then-Quiet w _ _ (made gic) (
      and_then-Quiet w _ _ (made pe) (
        and_then-Quiet w _ _ (made event)
          (and_then-Quiet w _ _ (made watchdog) (and_then-Quiet w _ _ (made timer) (λ e. cc, tt)))))

sdei_init-zero : (w : World) → (sdei_init w).0 ≡ 0 → IsReady w
unfolding sdei_init
sdei_init-zero w h =
    let end : ℕ × List Call = (w.init_status, initialization ∷ []) in
    let s5 = and_then w (create_infotable w timer) end in
    let s4 = and_then w (create_infotable w watchdog) s5 in
    let s3 = and_then w (create_infotable w event) s4 in
    let s2 = and_then w (create_infotable w pe) s3 in
    let (h1, r1) = and_then-zero w (create_infotable w gic) s2 h in
    let (h2, r2) = and_then-zero w (create_infotable w pe) s3 r1 in
    let (h3, r3) = and_then-zero w (create_infotable w event) s4 r2 in
    let (h4, r4) = and_then-zero w (create_infotable w watchdog) s5 r3 in
    let (h5, r5) = and_then-zero w (create_infotable w timer) end r4 in
    let made = create_infotable-zero w in
    from_tables w r5
      (each w (made gic h1) (made pe h2) (made event h3) (made watchdog h4) (made timer h5))

after_copy-IsReady :
    (w : World) (size : ℕ)
    → ((after_copy w size).0 ≡ size)
      × ((after_copy w size).1 ≡ 0xFFFFFFFF)
      × (IsReady w → (after_copy w size).2 ≡ in_order)
      × (All (λ c. c ≢ test_execute) (after_copy w size).2 ⊎ IsReady w)
unfolding after_copy
after_copy-IsReady w size =
    let run = λ (r : IsReady w). ap (λ x. x.2) (ready_run w size r) in
    elim (Bool-cases ((sdei_init w).0 == 0)) [
      | inl e ↦ rw e (refl, refl, rw e at run, inr (sdei_init-zero w (ground arith)))
      | inr e ↦ rw e (refl, refl, rw e at run, inl (sdei_init-Quiet w))
    ]

-- A write of test parameters that fit their variable returns the size that was written and sets the
-- completion flag. Where every table can be created and the layer starts, the tables are created in
-- the order GIC, PE, events, watchdogs, timers, and then the tests are run, once, between the
-- allocation and the release of the shared memory; where the tests are run, every table was created
-- and the layer was started.
pub sdei_proc_write-IsReady :
    (w : World) (size : ℕ)
    → size ≤ w.control_size
    → (r : ℕ × ℕ × List Call) × (sdei_proc_write w size ≡ some r)
      × (r.0 ≡ size)
      × (r.1 ≡ 0xFFFFFFFF)
      × (IsReady w → r.2 ≡ in_order)
      × (All (λ c. c ≢ test_execute) r.2 ⊎ IsReady w)
unfolding sdei_proc_write
sdei_proc_write-IsReady w size h =
    let (a, b, c, d) = after_copy-IsReady w size in (after_copy w size, ground arith, a, b, c, d)
