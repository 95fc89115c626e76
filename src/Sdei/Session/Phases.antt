-- ===== src/Sdei/Session/Phases.antt =====
-- A user that cleans up after each run of the SDEI module: its message buffer is there while it is
-- used, and every buffer is given back.
use linux_acs.Prelude.{ℕ, Bool, true, Option, some, List, [], ◌∷◌, ◌>>=◌}
use linux_acs.MsgLog.{ReadBuffer}
use linux_acs.Sdei.Init.{test_cleanup}
use linux_acs.Sdei.Session.{Module, start, finish, module_print, module_read, cleanup}
use linux_acs.Sdei.Session.Kept.{Clean, Running}

-- What happens to the module: the start and the end of a write, a message of the layer with what
-- kmalloc does in it, a read of a message slot, and a write of the cleanup word.
pub data Event : Type 0 where
  starts : (level : ℕ) → Event
  prints : (granted : Bool) (verbosity msg : ℕ) → Event
  finishes : Event
  reads : (i : ℕ) → Event
  cleans : Event

abbrev pub step : ReadBuffer → ℕ → Event → Module → Option Module
step copy size (starts level) s = some (start level true s)
step copy size (prints granted verbosity msg) s = module_print granted verbosity msg s
step copy size finishes s = some (finish s)
step copy size (reads i) s = module_read copy size i s >>= λ r. some r.1
step copy size cleans s = cleanup test_cleanup s

abbrev pub steps : ReadBuffer → ℕ → List Event → Module → Option Module
steps copy size [] s = some s
steps copy size (e ∷ es) s = step copy size e s >>= λ t. steps copy size es t

-- Whether there is a buffer.
pub data Phase : Type 0 where
  clean running : Phase

pub data Follows : Phase → List Event → Phase → Type 0 where
  stop : {p : Phase} → Follows p [] p
  begun :
      {level : ℕ} {es : List Event} {q : Phase}
      → Follows running es q
      → Follows clean (starts level ∷ es) q
  printed :
      {granted : Bool} {verbosity msg : ℕ} {es : List Event} {q : Phase}
      → Follows running es q
      → Follows running (prints granted verbosity msg ∷ es) q
  was_read :
      {i : ℕ} {es : List Event} {q : Phase}
      → Follows running es q
      → Follows running (reads i ∷ es) q
  finished :
      {es : List Event} {q : Phase} → Follows running es q → Follows running (finishes ∷ es) q
  cleaned : {es : List Event} {q : Phase} → Follows clean es q → Follows running (cleans ∷ es) q

abbrev pub InPhase : Phase → List ℕ → Module → Type 0
InPhase clean live s = Clean live s
InPhase running live s = Running live s
