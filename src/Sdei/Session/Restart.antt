-- ===== src/Sdei/Session/Restart.antt =====
-- The second run of the SDEI module.
use linux_acs.Prelude.{
  ℕ, zero, suc, ◌≡◌, ◌≤◌, ◌<◌, refl, ap, ◌∙◌, true, some, List, ◌∷◌, map, replicate, arith, Yields,
  weaken-Yields,
}
use linux_acs.MsgLog.{Log, Slot, unwritten, ReadBuffer, Reply, message, CopiesAll, read_many, take}
use linux_acs.MsgLog.Drain.{read_many-contents}
use linux_acs.Sdei.Init.{test_cleanup}
use linux_acs.Sdei.Session.{Module, test_complete, start, cleanup, sdei_proc_read}
use linux_acs.Sdei.Session.Kept.{
  Running, given_back, cleanup-given_back, given_back-Clean, start-Running,
}

take-replicate : (k n : ℕ) (x : Slot) → k ≤ n → take k (replicate n x) ≡ replicate k x
take-replicate zero n x h = refl
take-replicate (suc k) zero x h = absurd (omega arith)
take-replicate (suc k) (suc n) x h = ap (λ zs. x ∷ zs) (take-replicate k n x (omega arith))

-- Where a run of the module has ended and is cleaned up, and the next one has been started with its
-- buffer granted but has printed nothing, the flag of the first run still says that the tests are
-- complete, and a user that reads the messages from the start gets as many as the first run left,
-- each of them memory of the new buffer that nobody wrote. The kernel copies what is asked for
-- within the buffer, and a message has some bytes.
pub start-cleanup :
    (copy : ReadBuffer) (copies : CopiesAll copy) (size : ℕ) (some_byte : 0 < size) (live : List ℕ)
    (level : ℕ) (s : Module)
    → Running live s
    → s.completion_flag ≡ test_complete
    → (t : Module) × (cleanup test_cleanup s ≡ some t)
      × (sdei_proc_read (start level true t) ≡ test_complete)
      × Yields
          (λ (r : List Reply × Log). r.0 ≡ map message (replicate s.log.tail_msg unwritten))
          (read_many copy size s.log.tail_msg 0 (start level true t).log)
unfolding sdei_proc_read start
start-cleanup copy copies size some_byte live level s r c =
    let t = given_back live s in
    let again = start-Running live level t (given_back-Clean live s r) in
    let drained =
      read_many-contents copy copies size some_byte (start level true t).log again.valid in
    let old = take-replicate s.log.tail_msg s.log.num_msg unwritten r.valid.within in
    (t, cleanup-given_back live s r, c, weaken-Yields drained.0 λ x e. e ∙ ap (map message) old)
