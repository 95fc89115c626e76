-- ===== src/Mem/Print.antt =====
-- pal_print of bsa-acs-drv/files/platform/pal_linux/files/src/pal_misc.c: a text is put behind
-- KERN_CONT in a buffer of its own. Texts are lists of characters without the NUL at their end.
use linux_acs.Prelude.{
  ℕ, suc, ◌+◌, ◌≡◌, ◌≢◌, ◌<◌, refl, sym, ap, ap₂, ◌∙◌, Bool, true, false, Option, none, some, List,
  [], ◌∷◌, ◌++◌, length, length-append, append_assoc, replicate, set, ltb, ◌==◌, if◌then◌else◌,
  ◌>>=◌, All, arith,
}
use linux_acs.Driver.{Heap, kmalloc, kfree}
use linux_acs.Driver.Slots.{past, kmalloc-slot, kfree-slots}

-- KERN_CONT: the character 1 and a c.
abbrev pub kern_cont : List ℕ
kern_cont = 1 ∷ 99 ∷ []

-- strlen of a buffer; `none` where it has no NUL.
unfoldable pub strlen : List ℕ → Option ℕ
strlen [] = none
strlen (c ∷ cs) = let rest = strlen cs >>= λ n. some (suc n) in if c == 0 then some 0 else rest

-- What is read of a buffer as a text.
unfoldable pub text_in : List ℕ → Option (List ℕ)
text_in [] = none
text_in (c ∷ cs) = let rest = text_in cs >>= λ t. some (c ∷ t) in if c == 0 then some [] else rest

-- A character is stored; `none` outside of the buffer.
unfoldable pub store_char : List ℕ → ℕ → ℕ → Option (List ℕ)
store_char buf i c = if ltb i (length buf) then some (set buf i c) else none

-- A text and its NUL are stored from a position on.
unfoldable pub store_text : List ℕ → ℕ → List ℕ → Option (List ℕ)
unfolding store_char
store_text buf i [] = store_char buf i 0
store_text buf i (c ∷ cs) = store_char buf i c >>= λ b. store_text b (suc i) cs

unfoldable pub strcpy : List ℕ → List ℕ → Option (List ℕ)
unfolding store_text
strcpy buf src = store_text buf 0 src

unfoldable pub strcat : List ℕ → List ℕ → Option (List ℕ)
unfolding strlen store_text
strcat buf src = strlen buf >>= λ n. store_text buf n src

-- The body of `if (modifiedfmt)`, for a cleared buffer: what printk gets.
unfoldable pub format_text : List ℕ → List ℕ → Option (List ℕ)
unfolding strcpy strcat text_in
format_text buf string = strcpy buf kern_cont >>= λ b. strcat b string >>= λ b. text_in b

-- pal_print: the calls of printk, and the heap.
unfoldable pub print_text : Bool → List ℕ → ℕ → Heap → Option (List (List ℕ × ℕ) × Heap)
unfolding format_text
print_text granted string arg h =
    let (modifiedfmt, h) = kmalloc granted h in
    let buf = replicate (length string + length kern_cont + 1) 0 in
    let printed =
      if modifiedfmt == 0
      then some []
      else (format_text buf string >>= λ t. some ((t, arg) ∷ [])) in
    printed >>= λ calls. kfree modifiedfmt h >>= λ h. some (calls, h)

-- A text has no NUL inside.
abbrev pub IsText : List ℕ → Type 0
IsText cs = All (λ (c : ℕ). c ≢ 0) cs

set-append : (pre rest : List ℕ) (x c : ℕ) → set (pre ++ x ∷ rest) (length pre) c ≡ pre ++ c ∷ rest
set-append [] rest x c = refl
set-append (p ∷ pre) rest x c = ap (λ zs. p ∷ zs) (set-append pre rest x c)

store_char-append :
    (pre rest : List ℕ) (x c : ℕ)
    → store_char (pre ++ x ∷ rest) (length pre) c ≡ some (pre ++ c ∷ rest)
unfolding store_char
store_char-append pre rest x c =
    ground (arith, length-append pre (x ∷ rest), set-append pre rest x c)

abbrev zeros : ℕ → List ℕ
zeros n = replicate n 0

-- In a buffer with zeros enough behind `pre` a text is stored there, and zeros are left.
store_text-append :
    (pre cs : List ℕ) (m : ℕ)
    → store_text (pre ++ zeros (length cs + suc m)) (length pre) cs
      ≡ some (pre ++ (cs ++ zeros (suc m)))
unfolding store_text
store_text-append pre [] m =
    let e : 0 + suc m ≡ suc m = omega arith in rw e (store_char-append pre (zeros m) 0 0)
store_text-append pre (c ∷ cs) m =
    let e : suc (length cs) + suc m ≡ suc (length cs + suc m) = omega arith in
    let stored = store_char-append pre (zeros (length cs + suc m)) 0 c in
    let moved = append_assoc pre (c ∷ []) in
    let at : length (pre ++ c ∷ []) ≡ suc (length pre) = length-append pre (c ∷ []) ∙ omega arith in
    rw (e, stored)
      (ap₂ (λ b i. store_text b i cs) (sym (moved (zeros (length cs + suc m)))) (sym at)
        ∙ store_text-append (pre ++ c ∷ []) cs m
        ∙ ap some (moved (cs ++ zeros (suc m))))

text_in-append : (cs rest : List ℕ) → IsText cs → text_in (cs ++ 0 ∷ rest) ≡ some cs
unfolding text_in
text_in-append [] rest h = refl
text_in-append (c ∷ cs) rest h = ground (arith, h.0, text_in-append cs rest h.1)

format_text-kern_cont :
    (string : List ℕ)
    → IsText string
    → format_text (zeros (length string + length kern_cont + 1)) string ≡ some (kern_cont ++ string)
unfolding format_text strcpy strcat
format_text-kern_cont string h =
    let n = length string in
    let size : n + 2 + 1 ≡ 2 + suc n = omega arith in
    let again : suc n ≡ n + suc 0 = omega arith in
    let copied = store_text-append [] kern_cont n in
    let added = store_text-append kern_cont string 0 in
    let out = text_in-append (kern_cont ++ string) [] (λ e. cc, (λ e. cc, h)) in
    rw (size, copied)
      (ap (λ k. store_text (kern_cont ++ zeros k) 2 string >>= λ b. text_in b) again ∙ rw added out)

-- For every text pal_print stays within the buffer that it allocates, hands the text to printk behind
-- KERN_CONT, or nothing where the buffer is not granted, and leaves allocated what was allocated
-- before.
pub print_text-kern_cont :
    (granted : Bool) (string : List ℕ) (arg : ℕ) (h : Heap)
    → IsText string
    → 0 < h.next
    → print_text granted string arg h
      ≡ some (
        (if granted then (kern_cont ++ string, arg) ∷ [] else []),
        record { next = past granted h.next; live = h.live },
      )
unfolding print_text
print_text-kern_cont false string arg h t p =
    rw (kmalloc-slot false h.next h.live, kfree-slots false h.next h.next [] h.live p tt) refl
print_text-kern_cont true string arg h t p =
    let there : (h.next == 0) ≡ false = ground arith in
    rw
      (
        kmalloc-slot true h.next h.live,
        there,
        format_text-kern_cont string t,
        kfree-slots true h.next (h.next + 1) [] h.live p tt,
      )
      refl
