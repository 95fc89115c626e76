-- ===== src/Proc.antt =====
-- Registration of the /proc files: the init and exit functions of bsa-acs-drv/files/bsa_acs_drv.c,
-- sbsa-acs-drv/files/sbsa_acs_drv.c, sdei-acs-drv/sdei-acs-drv/files/sdei_acs_drv.c and
-- ffa-acs-drv/ffa_acs.c.
pub mod Entries
mod Tests
use linux_acs.Prelude.{ℕ, ◌^◌, ◌-◌, Bool, true, false, List, [], ◌∷◌, ◌==◌, if◌then◌else◌}

-- The entries that the modules create.
pub data Name : Type 0 where
  bsa bsa_msg sbsa sbsa_msg sdei sdei_msg ffa_acs : Name

abbrev number : Name → ℕ
number bsa = 0
number bsa_msg = 1
number sbsa = 2
number sbsa_msg = 3
number sdei = 4
number sdei_msg = 5
number ffa_acs = 6

abbrev pub same_name : Name → Name → Bool
same_name a b = number a == number b

-- The entries of /proc, of any module.
abbrev pub Entries : Type 0
Entries = List Name

-- proc_create; `granted` is whether it returns an entry.
unfoldable pub proc_create : Bool → Name → Entries → Bool × Entries
proc_create true n ps = (true, n ∷ ps)
proc_create false n ps = (false, ps)

-- remove_proc_entry, which only warns if there is no such entry.
unfoldable pub remove_proc_entry : Name → Entries → Entries
remove_proc_entry n [] = []
remove_proc_entry n (p ∷ ps) =
    let rest = remove_proc_entry n ps in if same_name n p then ps else p ∷ rest

-- -1
abbrev pub failure : ℕ
failure = 2 ^ 32 - 1

abbrev refused : Name → Entries → ℕ × Entries
refused n ps = (failure, remove_proc_entry n ps)

-- `g` and `h`: whether the two calls of proc_create succeed.
unfoldable pub init_bsaproc : Bool → Bool → Entries → ℕ × Entries
unfolding proc_create remove_proc_entry
init_bsaproc g h ps =
    let (made, ps) = proc_create g bsa ps in
    if made
    then (let (made, ps) = proc_create h bsa_msg ps in if made then (0, ps) else refused bsa_msg ps)
    else refused bsa ps

unfoldable pub exit_bsaproc : Entries → Entries
unfolding remove_proc_entry
exit_bsaproc ps = remove_proc_entry bsa_msg (remove_proc_entry bsa ps)

unfoldable pub init_sbsaproc : Bool → Bool → Entries → ℕ × Entries
unfolding proc_create remove_proc_entry
init_sbsaproc g h ps =
    let (made, ps) = proc_create g sbsa ps in
    if made
    then (let (made, ps) = proc_create h sbsa_msg ps in
        if made then (0, ps) else refused sbsa_msg ps)
    else refused sbsa ps

unfoldable pub exit_sbsaproc : Entries → Entries
unfolding remove_proc_entry
exit_sbsaproc ps = remove_proc_entry sbsa_msg (remove_proc_entry sbsa ps)

unfoldable pub init_sdeiproc : Bool → Bool → Entries → ℕ × Entries
unfolding proc_create remove_proc_entry
init_sdeiproc g h ps =
    let (made, ps) = proc_create g sdei ps in
    if made
    then (let (made, ps) = proc_create h sdei_msg ps in
        if made then (0, ps) else refused sdei_msg ps)
    else refused sdei ps

unfoldable pub exit_sdeiproc : Entries → Entries
unfolding remove_proc_entry
exit_sdeiproc ps = remove_proc_entry sdei_msg (remove_proc_entry sdei ps)

unfoldable pub init_ffa_acs : Bool → Entries → ℕ × Entries
unfolding proc_create remove_proc_entry
init_ffa_acs g ps =
    let (made, ps) = proc_create g ffa_acs ps in if made then (0, ps) else refused ffa_acs ps

unfoldable pub exit_ffa_acs : Entries → Entries
unfolding remove_proc_entry
exit_ffa_acs ps = remove_proc_entry ffa_acs ps
