-- ===== src/Ffa/Engine.antt =====
-- What a run of the SMMU test engine comes to.
use linux_acs.Prelude.{
  ℕ, zero, suc, ◌+◌, ◌-◌, ◌*◌, ◌/◌, ◌≡◌, ◌≤◌, ◌<◌, refl, sym, ap, ◌∙◌, Bool, true, false,
  Bool-cases, inl, inr, List, [], ◌++◌, ltb, ◌==◌, u32, u64, arith,
}
use linux_acs.Ffa.{
  pal_success, pal_error, Write, program, poll, frame_loop, configure_testengine, engine_halted,
  engine_memcpy,
}

-- The first read other than "still copying" is the n-th, and is "halted".
pub record Halts (reads : ℕ → ℕ) (n : ℕ) : Type 0 where
  pub busy : (i : ℕ) → i < n → reads i ≡ engine_memcpy
  pub ends : reads n ≡ engine_halted

poll-Halts :
    (reads : ℕ → ℕ) (k i limit : ℕ)
    → Halts reads (i + k)
    → k + 1 < limit
    → poll reads limit i ≡ pal_success
unfolding poll
poll-Halts reads k i zero h r = absurd (omega arith)
poll-Halts reads k i (suc zero) h r = absurd (omega arith)
poll-Halts reads zero i (suc (suc t)) h r =
    let e : i + 0 ≡ i = omega arith in
    let a : reads i ≡ engine_halted = ap reads (sym e) ∙ h.ends in
    let b : (reads i == engine_memcpy) ≡ false = ground arith in
    let c : (reads i == engine_halted) ≡ true = ground arith in rw (b, poll, c) refl
poll-Halts reads (suc k) i (suc (suc t)) h r =
    let a : reads i ≡ engine_memcpy = h.busy i (omega arith) in
    let e : i + 1 + k ≡ i + suc k = omega arith in
    let b : (reads i == engine_memcpy) ≡ true = ground arith in
    rw (b, poll) (poll-Halts reads k (i + 1) (suc t) (rw e h) (omega arith))

-- The register writes for `k` frames from frame `i` on.
abbrev pub programs : Bool → ℕ → ℕ → ℕ → ℕ → ℕ → List Write
programs secure stream_id source dest zero i = []
programs secure stream_id source dest (suc k) i =
    program secure stream_id source dest i ++ programs secure stream_id source dest k (i + 1)

module _ (reads : ℕ → ℕ → ℕ) (limit : ℕ) (secure : Bool) (stream_id source dest : ℕ)
    (copied : (i : ℕ) → (n : ℕ) × Halts (reads i) n × (n + 1 < limit)) where
  frame_loop-programs :
      (k i : ℕ)
      → frame_loop reads limit secure stream_id source dest k i
        ≡ (pal_success, programs secure stream_id source dest k i)
  unfolding frame_loop
  frame_loop-programs zero i = refl
  frame_loop-programs (suc k) i =
      let (n, h, r) = copied i in
      let p : poll (reads i) limit 0 ≡ pal_success =
        poll-Halts (reads i) n 0 limit (let e : 0 + n ≡ n = omega arith in rw e h) r in
      rw (p, frame_loop, frame_loop-programs k (i + 1)) refl

  -- Where the engine halts on every frame in time, each page of the size has its frame set up and
  -- started, in order, and the outcome is that of one comparison: the last page of the source, and
  -- what follows it for the whole size, with the destination from its start.
  pub configure_testengine-programs :
      (equal : ℕ → ℕ → ℕ → Bool) (size : ℕ)
      → 0x1000 ≤ u32 size
      → configure_testengine reads equal limit stream_id source dest size secure ≡ (
        elim (equal (u64 (source + (u32 size / 0x1000 - 1) * 0x1000)) dest size) [
          | true ↦ pal_success
          | false ↦ pal_error
        ],
        programs secure stream_id source dest (u32 size / 0x1000) 0,
      )
  unfolding configure_testengine
  configure_testengine-programs equal size h =
      let some_frame : ltb (u32 size / 0x1000) 1 ≡ false = ground arith in
      let loop = frame_loop-programs (u32 size / 0x1000) 0 in
      let over = ap (λ x. x.0) loop in
      let writes = ap (λ x. x.1) loop in
      elim (Bool-cases (equal (u64 (source + (u32 size / 0x1000 - 1) * 0x1000)) dest size)) [
        | inl e ↦ rw (some_frame, configure_testengine, over, e, writes) refl
        | inr e ↦ rw (some_frame, configure_testengine, over, e, writes) refl
      ]
