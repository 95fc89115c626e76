-- ===== src/Sbsa/Session.antt =====
-- Sessions with the SBSA module.
use linux_acs.Prelude.{
  ℕ, ◌≡◌, refl, Option, some, List, [], ◌∷◌, ◌>>=◌, All, Yields, yields, bind-Yields, weaken-Yields,
  subst, sym,
}
use linux_acs.Driver.{Grants, Params, Drv, execute_command, params_size}
use linux_acs.Driver.Memory.{shared_at}
use linux_acs.Driver.Session.{
  Request, Phase, idle, ready, Follows, stop, creates, frees, uses, InPhase, Leaves, entered,
  create-Owns, free-Clean, plain-InPhase, entered-InPhase, rest_of, slot-Leaves,
}
use linux_acs.Sbsa.{SbsaVal, sbsa_proc_write}
use linux_acs.Sbsa.Same.{SbsaCommand, code, layer_of, sbsa_execute_command-execute_command}

-- The requests, one after the other; each is a write of all parameters.
abbrev pub sbsa_write_all : SbsaVal → List Request → Drv → Option Drv
sbsa_write_all w [] s = some s
sbsa_write_all w ((g, r) ∷ rs) s =
    sbsa_proc_write w g params_size r s >>= λ a. sbsa_write_all w rs a.1

-- A request that names a command of the SBSA module.
abbrev pub Known : Request → Type 0
Known r = (c : SbsaCommand) × (r.1.api_num ≡ code c)

-- A write of all parameters is the command in them.
write-InPhase :
    (w : SbsaVal) (g : Grants) (live : List ℕ) (q : Phase) (r : Params) (s : Drv)
    → Known (g, r)
    → Yields (InPhase q live) (execute_command (layer_of w r) g (entered r s))
    → Yields (λ (a : ℕ × Drv). InPhase q live a.1) (sbsa_proc_write w g params_size r s)
unfolding sbsa_proc_write
write-InPhase w g live q r s (c, e) y =
    let same = sbsa_execute_command-execute_command w g c (entered r s) e in
    bind-Yields (subst (Yields (InPhase q live)) (sym same) y) λ t i. yields i

-- Whichever allocations of whichever request fail, a user of the SBSA module whose requests name its
-- commands, create the tables, then run tests and set the skip list, and free the tables before they
-- are created again, never frees memory that is not allocated, whatever the tests are. What is
-- allocated in the end, beside the tables and their shared memory if they are there, is what was
-- allocated before and one block of shared memory for each creation that was granted one and whose
-- tables were freed.
pub sbsa_write_all-InPhase :
    (w : SbsaVal) (live : List ℕ) (p q : Phase) (n : ℕ) (rs : List Request) (s : Drv)
    → All Known rs
    → Follows p rs q n
    → InPhase p live s
    → Yields (Leaves q live n) (sbsa_write_all w rs s)
sbsa_write_all-InPhase w live p q n [] s known stop i = yields ([], refl, i)
sbsa_write_all-InPhase w live idle q n ((g, r) ∷ rs) s (k, ks) (creates e f) i =
    bind-Yields
      (write-InPhase w g live (ready g.shared) r s k
        (create-Owns (layer_of w r) g live (entered r s) e (entered-InPhase live r s idle i)))
      λ a j. sbsa_write_all-InPhase w live (ready g.shared) q n rs a.1 ks f j
sbsa_write_all-InPhase w live (ready b) q m ((g, r) ∷ rs) s (k, ks) (frees {n = n} e f) i =
    let o = entered-InPhase live r s (ready b) i in
    let rest = rest_of o in
    bind-Yields
      (write-InPhase w g rest idle r s k (free-Clean (layer_of w r) g live (entered r s) e o))
      λ a j.
        weaken-Yields (sbsa_write_all-InPhase w rest idle q n rs a.1 ks f j)
          (slot-Leaves q b (shared_at o.grants o.base) n live)
sbsa_write_all-InPhase w live p q n ((g, r) ∷ rs) s (k, ks) (uses c e f) i =
    bind-Yields
      (write-InPhase w g live p r s k
        (plain-InPhase (layer_of w r) g live p c (entered r s) e (entered-InPhase live r s p i)))
      λ a j. sbsa_write_all-InPhase w live p q n rs a.1 ks f j
