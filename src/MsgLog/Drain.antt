-- ===== src/MsgLog/Drain.antt =====
-- Reading the message buffer from the start.
use linux_acs.Prelude.{
  Yields, yields, bind-Yields, weaken-Yields, ℕ, zero, suc, ◌+◌, ◌*◌, ◌≡◌, ◌≢◌, ◌≤◌, ◌<◌, refl, ap,
  ap₂, ◌∙◌, some, List, [], ◌∷◌, map, arith, length, get_or, set, length-set,
}
use linux_acs.MsgLog.{
  Reply, nothing, message, Slot, cleared, Log, ReadBuffer, CopiesAll, read, read_many, take,
  contents, IsValid,
}

abbrev slots_from : List Slot → ℕ → ℕ → List Slot
slots_from buf i zero = []
slots_from buf i (suc n) = get_or buf i cleared ∷ slots_from buf (suc i) n

get_or-set_ne :
    (xs : List Slot) (i j : ℕ) (x : Slot)
    → i ≢ j
    → get_or (set xs i x) j cleared ≡ get_or xs j cleared
get_or-set_ne [] i j x h = refl
get_or-set_ne (y ∷ xs) zero zero x h = absurd (h refl)
get_or-set_ne (y ∷ xs) zero (suc j) x h = refl
get_or-set_ne (y ∷ xs) (suc i) zero x h = refl
get_or-set_ne (y ∷ xs) (suc i) (suc j) x h = get_or-set_ne xs i j x (λ e. h (ap suc e))

slots_from-set :
    (xs : List Slot) (i j n : ℕ) (x : Slot)
    → i < j
    → slots_from (set xs i x) j n ≡ slots_from xs j n
slots_from-set xs i j zero x h = refl
slots_from-set xs i j (suc n) x h =
    ap₂ ◌∷◌ (get_or-set_ne xs i j x (omega arith)) (slots_from-set xs i (suc j) n x (omega arith))

slots_from-suc :
    (y : Slot) (xs : List Slot) (i n : ℕ) → slots_from (y ∷ xs) (suc i) n ≡ slots_from xs i n
slots_from-suc y xs i zero = refl
slots_from-suc y xs i (suc n) = ap (λ zs. get_or xs i cleared ∷ zs) (slots_from-suc y xs (suc i) n)

slots_from-take : (xs : List Slot) (n : ℕ) → n ≤ length xs → slots_from xs 0 n ≡ take n xs
slots_from-take xs zero h = refl
slots_from-take [] (suc n) h = absurd (omega arith)
slots_from-take (x ∷ xs) (suc n) h =
    ap (λ zs. x ∷ zs) (slots_from-suc x xs 0 n ∙ slots_from-take xs n (omega arith))

module _ (copy : ReadBuffer) (copies : CopiesAll copy) (size : ℕ) (some_byte : 0 < size) where
  -- In front of the tail a read returns the slot and clears it.
  read-below :
      (i : ℕ) (s : Log)
      → IsValid s
      → i < s.tail_msg
      → read copy size i s
        ≡ some (message (get_or s.buf i cleared), record s { buf = set s.buf i cleared })
  unfolding read
  read-below i s v h =
      let below : i * size < s.tail_msg * size = grind arith in
      let inside : i * size + size ≤ s.num_msg * size =
        let m : suc i * size ≤ s.num_msg * size = grind arith in omega arith in
      ground (arith, copies size (i * size) (s.num_msg * size) inside)

  -- At the tail a read returns nothing and changes nothing.
  read-tail : (s : Log) → IsValid s → read copy size s.tail_msg s ≡ some (nothing, s)
  unfolding read
  read-tail s v =
      let inside : s.tail_msg * size + 0 ≤ s.num_msg * size = grind arith in
      ground (arith, copies 0 (s.tail_msg * size) (s.num_msg * size) inside)

  read_many-slots_from :
      (n i : ℕ) (s : Log)
      → IsValid s
      → i + n ≤ s.tail_msg
      → Yields
          (λ (r : List Reply × Log). r.0 ≡ map message (slots_from s.buf i n))
          (read_many copy size n i s)
  unfolding read_many
  read_many-slots_from zero i s v h = yields refl
  read_many-slots_from (suc n) i s v h =
      let s' : Log = record s { buf = set s.buf i cleared } in
      let v' : IsValid s' = ground (arith, length-set s.buf i cleared) in
      let e : i + 1 ≡ suc i = omega arith in
      let same = slots_from-set s.buf i (suc i) n cleared (omega arith) in
      rw (read-below i s v (omega arith), e)
        (bind-Yields (read_many-slots_from n (suc i) s' v' (omega arith)) λ b q.
          yields (ap (λ zs. message (get_or s.buf i cleared) ∷ zs) (q ∙ ap (map message) same)))

  -- From the first slot on, sdei_msg_proc_read hands out the printed messages one by one, in the
  -- order in which they were printed, and then reports the end; this for every valid buffer and a
  -- kernel that copies what is asked for within the buffer.
  pub read_many-contents :
      (s : Log)
      → IsValid s
      → Yields
          (λ (r : List Reply × Log). r.0 ≡ map message (contents s))
          (read_many copy size s.tail_msg 0 s)
        × (read copy size s.tail_msg s ≡ some (nothing, s))
  read_many-contents s v = (
    weaken-Yields (read_many-slots_from s.tail_msg 0 s v (omega arith))
        λ r e. e ∙ ap (map message) (slots_from-take s.buf s.tail_msg (omega arith)),
    read-tail s v,
  )
