-- ===== src/MsgLog/Reach.antt =====
-- The message buffer over a whole run of the SDEI module: calls of pal_print and reads of the
-- message file, in any order.
use linux_acs.Prelude.{
  zero, ◌≢◌, ◌>>=◌, some, length, set, get_or, Yields, yields, sym, false, ℕ, suc, ◌*◌, ◌^◌, ◌≡◌,
  refl, ◌∙◌, ◌⊎◌, Bool, inl, inr, Bool-cases, ◌==◌, if◌then◌else◌, length-set, arith,
}
use linux_acs.MsgLog.{
  Slot, torn, Reply, Answer, copied, efault, partial, answered, clear_across, cleared, Log,
  ReadBuffer, fresh, min_num_msg, print, read, IsValid,
}

-- One call, with what kmalloc and the copy to the user do in it. A read must not write in front of
-- the buffer.
pub data Step : Log → Log → Type 0 where
  printed : {s : Log} (granted : Bool) (verbosity msg : ℕ) → Step s (print granted verbosity msg s)
  was_read :
      {s t : Log} (copy : ReadBuffer) (size i : ℕ) (x : Reply)
      → read copy size i s ≡ some (x, t)
      → Step s t

-- The buffers that a run can come to after sdei_init.
pub data Reach (level : ℕ) : Log → Type 0 where
  started : Reach level (fresh level)
  after : {s t : Log} → Reach level s → Step s t → Reach level t

-- What no call changes.
pub record IsRun (level : ℕ) (s : Log) : Type 0 where
  pub valid : IsValid s
  pub level_kept : s.print_level ≡ level
  pub doubled : (k : ℕ) × (s.num_msg ≡ min_num_msg * 2 ^ k)

-- What a read leaves, whatever is copied: it changes slots only.
pub record IsKept (s t : Log) : Type 0 where
  pub slots : length t.buf ≡ length s.buf
  pub level : t.print_level ≡ s.print_level
  pub num : t.num_msg ≡ s.num_msg
  pub tail : t.tail_msg ≡ s.tail_msg

set-IsKept : (s : Log) (i : ℕ) (x : Slot) → IsKept s (record s { buf = set s.buf i x })
set-IsKept s i x = record { slots = length-set s.buf i x; level = refl; num = refl; tail = refl }

torn-IsKept : (s : Log) (j : ℕ) → IsKept s (record s { buf = set (set s.buf j torn) (suc j) torn })
torn-IsKept s j = record {
  slots = length-set (set s.buf j torn) (suc j) torn ∙ length-set s.buf j torn;
  level = refl;
  num = refl;
  tail = refl;
}

same-IsKept : (s : Log) → IsKept s s
same-IsKept s = record { slots = refl; level = refl; num = refl; tail = refl }

-- A read of a slot behind the first never writes in front of the buffer, nor does one of the first
-- slot that is answered with nothing or with all that was asked.
unfoldable pub IsHarmless : ℕ → ℕ → Answer → Type 0
IsHarmless size i a = (i ≢ 0) ⊎ ((a ≡ copied 0) ⊎ (a ≡ copied size))

copied-bytes : {m n : ℕ} → copied m ≡ copied n → m ≡ n
copied-bytes e = cc

answered-IsKept :
    (size i : ℕ) (s : Log) (a : Answer)
    → IsHarmless size i a
    → Yields (λ (r : Reply × Log). IsKept s r.1) (answered size i s a)
unfolding answered IsHarmless
answered-IsKept size zero s efault h = elim h [
  | inl n ↦ absurd (n refl)
  | inr e ↦ elim e [ inl q ↦ cc | inr q ↦ cc ]
]
answered-IsKept size (suc j) s efault h = yields (set-IsKept s j cleared)
answered-IsKept size i s (copied n) h = elim (Bool-cases (n == 0)) [
  | inl e ↦ rw e (yields (same-IsKept s))
  | inr e ↦ elim (Bool-cases (n == size)) [
    | inl f ↦ rw (e, f) (yields (set-IsKept s i cleared))
    | inr f ↦ rw (e, f) (part i e f h)
  ]
]
  where
    part :
        (i : ℕ)
        → (n == 0) ≡ false
        → (n == size) ≡ false
        → IsHarmless size i (copied n)
        → Yields
            (λ (r : Reply × Log). IsKept s r.1)
            (clear_across i s >>= λ t. some (partial n (get_or s.buf i cleared), t))
    part zero e f h = elim h [
      | inl q ↦ absurd (q refl)
      | inr q ↦ elim q [
        | inl r ↦ absurd (ground (arith, copied-bytes r))
        | inr r ↦ absurd (ground (arith, copied-bytes r))
      ]
    ]
    part (suc j) e f h = yields (torn-IsKept s j)

-- A read that is harmless comes back.
pub read-IsKept :
    (copy : ReadBuffer) (size i : ℕ) (s : Log)
    → (let len = if i * size == s.tail_msg * size then 0 else size in
        IsHarmless size i (copy len (i * size) (s.num_msg * size)))
    → Yields (λ (r : Reply × Log). IsKept s r.1) (read copy size i s)
unfolding read
read-IsKept copy size i s h = answered-IsKept size i s _ h

pub kept-IsValid : (s t : Log) → IsKept s t → IsValid s → IsValid t
kept-IsValid s t k v = record {
  allocated = k.slots ∙ v.allocated ∙ sym k.num;
  within = omega (arith, k.tail, k.num, v.within);
  some_slot = omega (arith, k.num, v.some_slot);
}
