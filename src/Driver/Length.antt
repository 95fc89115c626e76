-- ===== src/Driver/Length.antt =====
-- The length that bsa_proc_read reports.
use linux_acs.Prelude.{
  u32, ℕ, ◌*◌, ◌≡◌, ◌≢◌, ◌<◌, ◌≤◌, refl, Bool, true, false, Option, none, some, arith, ltb, ◌==◌,
  if◌then◌else◌, ◌>>=◌, >>=-eq-some, subst, Ensures, holds, bind-Ensures, any-Ensures, of_Ensures,
}
use linux_acs.MsgLog.{ReadBuffer, Reply, read}
use linux_acs.Driver.{
  log_of, Messages, Params, Drv, Suite, exerciser, pcie, peripheral, memory, Val, Grants, when,
  create_tables, kfree, free_tables, run_suite, skip_list, view, execute_command,
  create_info_tables, pcie_execute_test, update_skip_list, exerciser_execute_test, update_sw_view,
  per_execute_test, mem_execute_test, free_info_tables, proc_write, proc_read, msg_proc_read,
  params_size, msg_size,
}

-- A step that leaves the length alone.
abbrev SameLen : (Drv → Option Drv) → Type 0
SameLen f = (s : Drv) → Ensures (λ s'. s'.len ≡ s.len) (f s)

when-SameLen : (b : Bool) (f : Drv → Option Drv) → SameLen f → SameLen (when b f)
when-SameLen true f same s = same s
when-SameLen false f same s = holds refl

create_tables-SameLen : (g : Grants) → SameLen (create_tables g)
unfolding create_tables
create_tables-SameLen g s = holds refl

free_tables-SameLen : SameLen free_tables
unfolding free_tables
free_tables-SameLen s =
    let p = s.ptrs in
    bind-Ensures (any-Ensures (kfree p.pe_info s.heap)) λ h1 _.
      bind-Ensures (any-Ensures (kfree p.pcie_info h1)) λ h2 _.
        bind-Ensures (any-Ensures (kfree p.per_info h2)) λ h3 _.
          bind-Ensures (any-Ensures (kfree p.dma_info h3)) λ h4 _.
            bind-Ensures (any-Ensures (kfree p.iovirt_info h4))
              λ h5 _. bind-Ensures (any-Ensures (kfree p.msg_buf h5)) λ h6 _. holds refl

run_suite-SameLen : (v : Val) (suite : Suite) → SameLen (run_suite v suite)
unfolding run_suite
run_suite-SameLen v suite s = holds refl

skip_list-SameLen : SameLen skip_list
unfolding skip_list
skip_list-SameLen s = holds refl

view-SameLen : SameLen view
unfolding view
view-SameLen s = holds refl

-- A step behind steps that left the length alone.
then-SameLen :
    {n : ℕ} (b : Bool) (f : Drv → Option Drv) (s : Drv)
    → SameLen f
    → s.len ≡ n
    → Ensures (λ s'. s'.len ≡ n) (when b f s)
then-SameLen b f s same e = rw (← e) (when-SameLen b f same s)

execute_command-SameLen : (v : Val) (g : Grants) → SameLen (execute_command v g)
unfolding execute_command
execute_command-SameLen v g s =
    let s0 : Drv = record s { print_level = u32 s.params.arg1 } in
    bind-Ensures
      (then-SameLen (s0.params.api_num == create_info_tables) (create_tables g) s0
        (create_tables-SameLen g) refl)
      λ s1 e1.
        bind-Ensures
          (then-SameLen (s1.params.api_num == free_info_tables) free_tables s1 free_tables-SameLen
            e1)
          λ s2 e2.
            bind-Ensures
              (then-SameLen (s2.params.api_num == exerciser_execute_test) (run_suite v exerciser) s2
                (run_suite-SameLen v exerciser) e2)
              λ s3 e3.
                bind-Ensures
                  (then-SameLen (s3.params.api_num == pcie_execute_test) (run_suite v pcie) s3
                    (run_suite-SameLen v pcie) e3)
                  λ s4 e4.
                    bind-Ensures
                      (then-SameLen (s4.params.api_num == per_execute_test) (run_suite v peripheral)
                        s4 (run_suite-SameLen v peripheral) e4)
                      λ s5 e5.
                        bind-Ensures
                          (then-SameLen (s5.params.api_num == mem_execute_test) (run_suite v memory)
                            s5 (run_suite-SameLen v memory) e5)
                          λ s6 e6.
                            bind-Ensures
                              (then-SameLen (s6.params.api_num == update_skip_list) skip_list s6
                                skip_list-SameLen e6)
                              λ s7 e7.
                                then-SameLen (s7.params.api_num == update_sw_view) view s7
                                  view-SameLen e7

proc_write-len :
    (v : Val) (g : Grants) (size : ℕ) (copied : Params) (s : Drv) {n : ℕ} {s' : Drv}
    → size ≤ params_size
    → proc_write v g size copied s ≡ some (n, s')
    → (n ≡ size) × (s'.len ≡ size)
unfolding proc_write
proc_write-len v g size copied s {n} {s'} fits e =
    let t : Drv = record s { len = size; params = copied } in
    let ran : Option (ℕ × Drv) = execute_command v g t >>= λ u. some (u.len, u) in
    let within : ltb params_size size ≡ false = ground arith in
    let r = subst (λ b. (if b then none else ran) ≡ some (n, s')) within e in
    let (u, eu, er) = >>=-eq-some (execute_command v g t) (λ u. some (u.len, u)) r in
    let same : u.len ≡ size = of_Ensures (execute_command-SameLen v g t) eu in
    ground (arith, er, same)

msg_proc_read-len :
    (copy : ReadBuffer) (i : ℕ) (m : Messages) (s : Drv)
    → i ≢ s.tail_msg
    → Ensures (λ (r : Reply × Messages × Drv). r.2.len ≡ msg_size) (msg_proc_read copy i m s)
unfolding msg_proc_read
msg_proc_read-len copy i m s h =
    let len : (if i * msg_size == s.tail_msg * msg_size then 0 else msg_size) ≡ msg_size =
      ground arith in
    bind-Ensures (any-Ensures (read copy msg_size i (log_of m s))) λ a u. holds len

-- A write of no more bytes than the parameters have, if it comes back, is reported in full, and its
-- size is what the next read of the parameters reports. After a read of the messages in front of the
-- end that comes back too, however, whatever is copied in it, a read of the parameters reports the
-- size of a message, which is larger than the parameters that it copies from.
pub proc_read-msg_proc_read :
    (v : Val) (g : Grants) (size : ℕ) (copied : Params) (s : Drv) {n : ℕ} {s' : Drv}
    (copy : ReadBuffer) (i : ℕ) (m : Messages) {x : Reply} {m' : Messages} {t : Drv}
    → size ≤ params_size
    → proc_write v g size copied s ≡ some (n, s')
    → i ≢ s'.tail_msg
    → msg_proc_read copy i m s' ≡ some (x, m', t)
    → (n ≡ size) × (proc_read s' ≡ size) × (proc_read t ≡ msg_size) × (params_size < msg_size)
unfolding proc_read
proc_read-msg_proc_read v g size copied s {s' = s'} copy i m fits e h r =
    let w = proc_write-len v g size copied s fits e in
    (w.0, w.1, of_Ensures (msg_proc_read-len copy i m s' h) r, omega arith)
