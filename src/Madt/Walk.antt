-- ===== src/Madt/Walk.antt =====
-- The walk over the structures of a MADT, for the tables that are made from it.
use linux_acs.Prelude.{ℕ, ◌+◌, ◌≡◌, ◌<◌, ◌^◌, some, List, [], ◌∷◌, arith, All, length}
use linux_acs.Madt.{MadtBody, MadtEntry, Madt, walk, over}

abbrev pub total_length : List MadtEntry → ℕ
total_length [] = 0
total_length (e ∷ es) = e.length + total_length es

-- The structures fill the table: there is one at least, none is empty, and their lengths add up
-- to the length of the table, which fits 32 bits.
pub record IsFilled (m : Madt) : Type 0 where
  pub some_entry : 0 < length m.entries
  pub nonempty : All (λ (e : MadtEntry). 0 < e.length) m.entries
  pub adds_up : m.size + total_length m.entries ≡ m.length
  pub fits : m.length < 2 ^ 32

abbrev pub bodies : List MadtEntry → List MadtBody
bodies [] = []
bodies (e ∷ es) = e.body ∷ bodies es

abbrev pub fold_bodies {ℓ} : {S : Type ℓ} → (S → MadtBody → S) → S → List MadtBody → S
fold_bodies visit s [] = s
fold_bodies visit s (b ∷ bs) = fold_bodies visit (visit s b) bs

walk-fold {ℓ} :
    {S : Type ℓ} (visit : S → MadtBody → S) (tl len : ℕ) (e : MadtEntry) (es : List MadtEntry)
    (s : S)
    → 0 < e.length
    → All (λ (e : MadtEntry). 0 < e.length) es
    → len + (e.length + total_length es) ≡ tl
    → tl < 2 ^ 32
    → walk visit tl len (e ∷ es) s ≡ some (fold_bodies visit s (bodies (e ∷ es)))
unfolding walk
walk-fold visit tl len e [] s p ps sum fits = ground arith
walk-fold visit tl len e (e' ∷ es) s p ps sum fits =
    ground (arith, walk-fold visit tl (len + e.length) e' es (visit s e.body) ps.0 ps.1)

-- On a table that its structures fill, the loop ends and visits each structure once, in order.
pub over-fold {ℓ} :
    {S : Type ℓ} (m : Madt) (visit : S → MadtBody → S) (s : S)
    → IsFilled m
    → over m visit s ≡ some (fold_bodies visit s (bodies m.entries))
over-fold m visit s f = by_entries m.entries f.some_entry f.nonempty f.adds_up
  where
    by_entries :
        (es : List MadtEntry)
        → 0 < length es
        → All (λ (e : MadtEntry). 0 < e.length) es
        → m.size + total_length es ≡ m.length
        → walk visit m.length m.size es s ≡ some (fold_bodies visit s (bodies es))
    by_entries [] p ps sum = absurd (omega arith)
    by_entries (e ∷ es) p ps sum = walk-fold visit m.length m.size e es s ps.0 ps.1 sum f.fits
