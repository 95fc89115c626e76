-- ===== src/Sdei/Conduit.antt =====
-- The way to the firmware, taken and given up:
-- sdei-acs-drv/sdei-acs-pal/files/src/pal_sdei_interface.c, and pal_psci.c beside it.
use linux_acs.Prelude.{
  ℕ, ◌≡◌, refl, ap, Bool, true, false, Option, none, some, List, [], ◌∷◌, ◌++◌, if◌then◌else◌, u32,
}
use linux_acs.Driver.{Heap, kmalloc, kfree}
use linux_acs.Sdei.Firmware.{SmcCall, Status, status_not_supported, not_supported, invoke_sdei_fn}

-- The calls of the layer that concern sdei_firmware_call.
pub data Operation : Type 0 where
  conduit_get interface_broken : Operation
  invoke : (id : ℕ) (args : List ℕ) → Operation

-- arm_smccc_smc: the function and seven arguments, and a0 of the answer.
module _ (smc : SmcCall) where
  unfoldable pub sdei_smccc_smc : SmcCall
  sdei_smccc_smc id args = smc id (args ++ 0 ∷ 0 ∷ [])

  -- pal_invoke_psci_fn, whose result is 32 bits wide.
  unfoldable pub invoke_psci_fn : ℕ → ℕ → ℕ → ℕ → ℕ
  invoke_psci_fn id arg0 arg1 arg2 = u32 (smc id (arg0 ∷ arg1 ∷ arg2 ∷ 0 ∷ 0 ∷ 0 ∷ 0 ∷ []))

  -- pal_conduit_get, pal_interface_broken and pal_invoke_sdei_fn: the pointer afterwards, and what
  -- an invocation returns.
  unfoldable pub operate : Operation → Option SmcCall → Option SmcCall × List (Status × ℕ)
  unfolding sdei_smccc_smc invoke_sdei_fn
  operate conduit_get firmware = (some sdei_smccc_smc, [])
  operate interface_broken firmware = (none, [])
  operate (invoke id args) firmware = (firmware, invoke_sdei_fn firmware id args ∷ [])

  unfoldable pub operate_all : List Operation → Option SmcCall → List (Status × ℕ)
  unfolding operate
  operate_all [] firmware = []
  operate_all (o ∷ os) firmware =
      let (firmware, answers) = operate o firmware in answers ++ operate_all os firmware

  -- Whether the last change of the conduit was to get it.
  abbrev pub connected : List Operation → Bool → Bool
  connected [] b = b
  connected (conduit_get ∷ os) b = connected os true
  connected (interface_broken ∷ os) b = connected os false
  connected (invoke id args ∷ os) b = connected os b

  abbrev pub pointer : Bool → Option SmcCall
  pointer true = some sdei_smccc_smc
  pointer false = none

  -- After any calls an invocation goes to the firmware, with two zeros behind its arguments, just
  -- where the conduit was got and the interface was not marked broken since; otherwise the firmware
  -- is not called and both the status and the result say not supported. The answers from before are
  -- not changed by it.
  pub operate_all-invoke :
      (os : List Operation) (b : Bool) (id : ℕ) (args : List ℕ)
      → operate_all (os ++ invoke id args ∷ []) (pointer b)
        ≡ operate_all os (pointer b)
          ++ (if connected os b
              then invoke_sdei_fn (some sdei_smccc_smc) id args
              else (status_not_supported, not_supported))
            ∷ []
  unfolding operate_all
  operate_all-invoke [] true id args = refl
  operate_all-invoke [] false id args = refl
  operate_all-invoke (conduit_get ∷ os) b id args = operate_all-invoke os true id args
  operate_all-invoke (interface_broken ∷ os) b id args = operate_all-invoke os false id args
  operate_all-invoke (invoke id' args' ∷ os) b id args =
      ap (λ xs. invoke_sdei_fn (pointer b) id' args' ∷ xs) (operate_all-invoke os b id args)

-- pal_intf_alloc, whose memory is cleared, and pal_intf_free.
abbrev intf_alloc : Bool → Heap → ℕ × Heap
intf_alloc = kmalloc

abbrev intf_free : ℕ → Heap → Option Heap
intf_free = kfree

-- sdei_events_lock, with the kernel's operations on a lock; `none` is a call that does not come back.
module _ {L : Type 0} (spin_lock spin_unlock : L → Option L) where
  abbrev intf_lock : L → Option L
  intf_lock sdei_events_lock = spin_lock sdei_events_lock

  abbrev intf_unlock : L → Option L
  intf_unlock sdei_events_lock = spin_unlock sdei_events_lock
