-- ===== src/Sdei/Firmware.antt =====
-- The firmware interface: error numbers and pal_invoke_sdei_fn.
use linux_acs.Prelude.{
  ℕ, ◌≡◌, ◌≢◌, refl, Bool, true, false, ◌||◌, Bool-cases, inl, inr, ◌⊎◌, Option, none, some, List,
  ◌==◌, if◌then◌else◌, u32,
}

-- The errors of pal_sdei_interface.h, -1, -2, -3, -5 and -10, as the 64-bit words that a0 is compared
-- with, and the statuses that they stand for.
abbrev pub not_supported : ℕ
not_supported = 0xffffffffffffffff

abbrev pub invalid_parameters : ℕ
invalid_parameters = 0xfffffffffffffffe

abbrev pub denied : ℕ
denied = 0xfffffffffffffffd

abbrev pub pending : ℕ
pending = 0xfffffffffffffffb

abbrev pub out_of_resource : ℕ
out_of_resource = 0xfffffffffffffff6

pub data Status : Type 0 where
  status_not_supported status_invalid status_denied status_pending : Status
  status_out_of_resource : Status
  other : (value : ℕ) → Status

-- A value that is no error is returned as an int.
unfoldable pub to_linux_errno : ℕ → Status
to_linux_errno a0 =
    if a0 == not_supported
    then status_not_supported
    else (if a0 == invalid_parameters
        then status_invalid
        else (if a0 == denied
            then status_denied
            else (if a0 == pending
                then status_pending
                else (if a0 == out_of_resource then status_out_of_resource else other (u32 a0)))))

unfoldable pub is_err : ℕ → Bool
is_err a0 =
    a0 == not_supported
    || (a0 == invalid_parameters || (a0 == denied || (a0 == pending || a0 == out_of_resource)))

-- A call that reaches the firmware, with the function and its arguments; the value is a0 of the
-- answer.
abbrev pub SmcCall : Type 0
SmcCall = ℕ → List ℕ → ℕ

-- pal_invoke_sdei_fn: err, where `other 0` is success, and *result. `firmware` is
-- sdei_firmware_call, `none` where it is null.
unfoldable pub invoke_sdei_fn : Option SmcCall → ℕ → List ℕ → Status × ℕ
unfolding to_linux_errno is_err
invoke_sdei_fn none id args = (status_not_supported, not_supported)
invoke_sdei_fn (some firmware) id args =
    let a0 = firmware id args in ((if is_err a0 then to_linux_errno a0 else other 0), a0)

errno-is_err :
    (a0 : ℕ)
    → (is_err a0 ≡ false → to_linux_errno a0 ≡ other (u32 a0))
      × (is_err a0 ≡ true → (value : ℕ) → to_linux_errno a0 ≢ other value)
unfolding is_err to_linux_errno
errno-is_err a0 = elim (Bool-cases (a0 == not_supported)) [
  | inl p ↦ rw p (λ h. cc, λ h value q. cc)
  | inr p ↦ elim (Bool-cases (a0 == invalid_parameters)) [
    | inl q ↦ rw (p, q) (λ h. cc, λ h value q. cc)
    | inr q ↦ elim (Bool-cases (a0 == denied)) [
      | inl r ↦ rw (p, q, r) (λ h. cc, λ h value q. cc)
      | inr r ↦ elim (Bool-cases (a0 == pending)) [
        | inl s ↦ rw (p, q, r, s) (λ h. cc, λ h value q. cc)
        | inr s ↦ elim (Bool-cases (a0 == out_of_resource)) [
          | inl t ↦ rw (p, q, r, s, t) (λ h. cc, λ h value q. cc)
          | inr t ↦ rw (p, q, r, s, t) (λ h. refl, λ h. cc)
        ]
      ]
    ]
  ]
]

-- A call reports success just where there is a firmware that answers with none of the five error
-- values; otherwise the status is one of the five, and it is that of the answer.
pub invoke_sdei_fn-is_err :
    (firmware : Option SmcCall) (id : ℕ) (args : List ℕ)
    → let r = invoke_sdei_fn firmware id args in
      (is_err r.1 ≡ true) × (r.0 ≡ to_linux_errno r.1) × ((value : ℕ) → r.0 ≢ other value)
      ⊎ (is_err r.1 ≡ false)
        × (r.0 ≡ other 0)
        × ((f : SmcCall) × (firmware ≡ some f) × (r.1 ≡ f id args))
unfolding invoke_sdei_fn
invoke_sdei_fn-is_err none id args = unfold is_err to_linux_errno in inl (refl, refl, λ value. cc)
invoke_sdei_fn-is_err (some f) id args = elim (Bool-cases (is_err (f id args))) [
  | inl e ↦ rw e (inl (refl, refl, (errno-is_err (f id args)).1 e))
  | inr e ↦ rw e (inr (refl, refl, (f, refl, refl)))
]
