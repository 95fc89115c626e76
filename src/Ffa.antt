-- ===== src/Ffa.antt =====
-- The FF-A module's platform layer: the SMMUv3 test engine of
-- ffa-acs-drv/pal_linux/src/pal_smmuv3_testengine.c, with the addresses of its header in
-- ffa-acs-drv/pal_linux/inc, and the interrupt handlers of ffa-acs-drv/pal_linux/src/pal_irq.c.
--
-- The engine is a parameter: what the n-th read of a frame's command register gives, and whether
-- the comparison of two memory ranges finds them equal.
pub mod Engine
pub mod Handler
pub mod Memory
pub mod Module
mod Tests
use linux_acs.Prelude.{
  ℕ, zero, suc, ◌+◌, ◌-◌, ◌*◌, ◌/◌, ◌^◌, Bool, true, false, not, if◌then◌else◌, Option, none, some,
  List, [], ◌∷◌, ◌++◌, ltb, ◌==◌, u32, u64,
}

pub data Outcome : Type 0 where
  pal_success pal_error : Outcome

-- A write of a register, 32 or 64 bits wide.
pub data Write : Type 0 where
  write32 : (addr value : ℕ) → Write
  write64 : (addr value : ℕ) → Write

abbrev pub p_frame : ℕ → ℕ → ℕ
p_frame i reg = 0x2bff0000 + reg + i * 0x80

abbrev pub u_frame : ℕ → ℕ → ℕ
u_frame i reg = 0x2bfe0000 + reg + i * 0x80

-- ENGINE_HALTED and ENGINE_MEMCPY
abbrev pub engine_halted : ℕ
engine_halted = 1

abbrev pub engine_memcpy : ℕ
engine_memcpy = 2

-- TIME_OUT
abbrev pub time_out : ℕ
time_out = 0x100000

-- The registers that are written for frame `i`.
unfoldable pub program : Bool → ℕ → ℕ → ℕ → ℕ → List Write
program secure stream_id source dest i =
    let begin = u64 (source + i * 0x1000) in
    write32 (p_frame i 0x0) (elim secure [ true ↦ 0 | false ↦ 1 ])
    ∷ write32 (p_frame i 0x4) 0
    ∷ write32 (p_frame i 0x8) stream_id
    ∷ write32 (p_frame i 0xC) 0xFFFFFFFF
    ∷ write32 (u_frame i 0x4) 0
    ∷ write32 (u_frame i 0x24) 0
    ∷ write64 (u_frame i 0x28) begin
    ∷ write64 (u_frame i 0x30) (u64 (begin + 0xFFF))
    ∷ write32 (u_frame i 0x38) 1
    ∷ write64 (u_frame i 0x40) (u64 (dest + i * 0x1000))
    ∷ write32 (u_frame i 0x0) engine_memcpy
    ∷ []

-- The loop `while (--time_out)` over the reads from the n-th on.
unfoldable pub poll : (ℕ → ℕ) → ℕ → ℕ → Outcome
poll reads zero n = pal_error
poll reads (suc zero) n = pal_error
poll reads (suc (suc t)) n = elim (reads n == engine_memcpy) [
  | true ↦ poll reads (suc t) (n + 1)
  | false ↦ elim (reads n == engine_halted) [ true ↦ pal_success | false ↦ pal_error ]
]

-- The loop over `k` frames from frame `i` on, with the writes.
unfoldable pub frame_loop : (ℕ → ℕ → ℕ) → ℕ → Bool → ℕ → ℕ → ℕ → ℕ → ℕ → Outcome × List Write
unfolding program poll
frame_loop reads limit secure stream_id source dest zero i = (pal_success, [])
frame_loop reads limit secure stream_id source dest (suc k) i =
    let writes = program secure stream_id source dest i in
    elim (poll (reads i) limit 0) [
      | pal_success ↦
          (let (o, ws) = frame_loop reads limit secure stream_id source dest k (i + 1) in
            (o, writes ++ ws))
      | pal_error ↦ (pal_error, writes)
    ]

-- smmuv3_configure_testengine. `equal a b n`: pal_memcmp finds no difference. The number of frames
-- takes the low 32 bits of the size, `begin` is that of the last frame.
unfoldable pub configure_testengine :
    (ℕ → ℕ → ℕ) → (ℕ → ℕ → ℕ → Bool) → ℕ → ℕ → ℕ → ℕ → ℕ → Bool → Outcome × List Write
unfolding frame_loop
configure_testengine reads equal limit stream_id source dest size secure =
    let num_frames = u32 size / 0x1000 in
    elim (ltb num_frames 1) [
      | true ↦ (pal_error, [])
      | false ↦
          (let (o, ws) = frame_loop reads limit secure stream_id source dest num_frames 0 in
            let begin = u64 (source + (num_frames - 1) * 0x1000) in
            elim o [
              | pal_error ↦ (pal_error, ws)
              | pal_success ↦ elim (equal begin dest size) [
                | true ↦ (pal_success, ws)
                | false ↦ (pal_error, ws)
              ]
            ])
    ]

-- The kernel's answers to pal_irq_register_handler: the domain, whether it is a hierarchy, the
-- memory for the fwspec, the interrupt that it maps to (`none` where none is found), and request_irq.
pub record IrqWorld : Type 0 where
  pub domain : Bool
  pub granted : Bool
  pub hierarchy : Bool
  pub alloc_irqs : ℕ → Option ℕ
  pub create_mapping : ℕ → Option ℕ
  pub request : ℕ → Bool

-- What became of the fwspec, and of the interrupt.
pub record IrqRun : Type 0 where
  pub outcome : Outcome
  pub allocated : ℕ
  pub freed : ℕ
  pub requested : Option ℕ

abbrev pub ended : ℕ → Outcome → Option ℕ → IrqRun
ended n o v = record { outcome = o; allocated = n; freed = n; requested = v }

-- From `virq = ...` to the end, the label `error` included.
unfoldable pub mapped : IrqWorld → Option ℕ → IrqRun
mapped w none = ended 1 pal_error none
mapped w (some virq) = elim (w.request virq) [
  | true ↦ ended 1 pal_success (some virq)
  | false ↦ ended 1 pal_error none
]

-- pal_irq_register_handler; the second cell of the fwspec is `irq_num - 32`, 32 bits wide.
unfoldable pub register_handler : IrqWorld → ℕ → IrqRun
unfolding mapped
register_handler w irq_num =
    if not w.domain
    then ended 0 pal_error none
    else (if not w.granted
        then ended 0 pal_error none
        else (if w.hierarchy
            then mapped w (w.alloc_irqs (u32 (irq_num + (2 ^ 32 - 32))))
            else mapped w (w.create_mapping irq_num)))

-- free_irq and irq_dispose_mapping.
pub data IrqCall : Type 0 where
  irq_freed disposed : (virq : ℕ) → IrqCall

-- pal_irq_unregister_handler; irq_create_mapping answers 0 where it finds none.
unfoldable pub unregister_handler : IrqWorld → ℕ → Outcome × List IrqCall
unregister_handler w irq_num =
    let virq : ℕ = elim (w.create_mapping irq_num) [ none ↦ 0 | some v ↦ v ] in
    (pal_success, irq_freed virq ∷ disposed virq ∷ [])
