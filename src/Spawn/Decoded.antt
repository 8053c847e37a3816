-- ===== src/Spawn/Decoded.antt =====
-- The letters that `sebsd_csflag_bits` of kext/spawn.c prints tell the flags.
use sedarwin.Prelude.{
  ℕ, ◌*◌, ◌≤◌, Bool, true, false, List, [], ◌∷◌, some, ◌≡◌, ◌≢◌, ◌∙◌, refl, ap, arith, bit_and, not,
  ◌==◌, ◌&&◌, ◌||◌, length, take-all,
}
use sedarwin.Bytes.{c_string}
use sedarwin.Kernel.{Kernel}
use sedarwin.Spawn.{csflag_table, csflag_bits}
use sedarwin.Spawn.Letters.{letters, separated, joined}
use sedarwin.Spawn.Flags.{csflag_bits-Named}

abbrev pub contains : ℕ → List ℕ → Bool
contains c [] = false
contains c (x ∷ xs) = (x == c) || contains c xs

-- A flag of that name is set.
abbrev shown : ℕ → ℕ → List (ℕ × ℕ) → Bool
shown c flags [] = false
shown c flags ((mask, name) ∷ rest) =
    ((name == c) && not (bit_and flags mask == 0)) || shown c flags rest

contains-letters :
    (c flags : ℕ) (table : List (ℕ × ℕ)) → contains c (letters flags table) ≡ shown c flags table
contains-letters c flags [] = refl
contains-letters c flags ((mask, name) ∷ rest) = ground (arith, contains-letters c flags rest)

contains-separated : (c : ℕ) (xs : List ℕ) → c ≢ b',' → contains c (separated xs) ≡ contains c xs
contains-separated c [] h = refl
contains-separated c (x ∷ xs) h = ground (arith, contains-separated c xs h)

contains-joined : (c : ℕ) (xs : List ℕ) → c ≢ b',' → contains c (joined xs) ≡ contains c xs
contains-joined c [] h = refl
contains-joined c (x ∷ xs) h = ap (λ b. (x == c) || b) (contains-separated c xs h)

length-letters : (flags : ℕ) (table : List (ℕ × ℕ)) → length (letters flags table) ≤ length table
length-letters flags [] = omega arith
length-letters flags ((mask, name) ∷ rest) = ground (arith, length-letters flags rest)

length-separated : (xs : List ℕ) → length (separated xs) ≡ 2 * length xs
length-separated [] = omega arith
length-separated (x ∷ xs) = omega (arith, length-separated xs)

length-joined : (xs : List ℕ) → length (joined xs) ≤ 2 * length xs
length-joined [] = omega arith
length-joined (x ∷ xs) = omega (arith, length-separated xs)

-- The text says of each name in the table whether its flag is set.
abbrev pub Tells : ℕ → List ℕ → List (ℕ × ℕ) → Type 0
Tells flags text [] = Unit {0}
Tells flags text ((mask, name) ∷ rest) =
    (contains name text ≡ not (bit_and flags mask == 0)) × Tells flags text rest

pub all_letters : (k : Kernel) (flags : ℕ) → length (joined (letters flags (csflag_table k))) ≤ 31
all_letters k flags =
    omega
      (arith, length-joined (letters flags (csflag_table k)), length-letters flags (csflag_table k))

or_false : (b : Bool) → (b || false) ≡ b
or_false true = refl
or_false false = refl

module _ (k : Kernel) (flags : ℕ) where
  abbrev table : List (ℕ × ℕ)
  table = csflag_table k

  told : (c : ℕ) → c ≢ b',' → contains c (joined (letters flags table)) ≡ shown c flags table
  told c h = contains-joined c (letters flags table) h ∙ contains-letters c flags table

  joined-Tells : Tells flags (joined (letters flags table)) table
  joined-Tells = (
    told b'V' (λ e. omega arith) ∙ or_false _,
    (
      told b'A' (λ e. omega arith) ∙ or_false _,
      (
        told b'S' (λ e. omega arith) ∙ or_false _,
        (
          told b'H' (λ e. omega arith) ∙ or_false _,
          (
            told b'K' (λ e. omega arith) ∙ or_false _,
            (
              told b'R' (λ e. omega arith) ∙ or_false _,
              (
                told b'T' (λ e. omega arith) ∙ or_false _,
                (
                  told b'D' (λ e. omega arith) ∙ or_false _,
                  (
                    told b'P' (λ e. omega arith) ∙ or_false _,
                    (told b'I' (λ e. omega arith) ∙ or_false _, tt),
                  ),
                ),
              ),
            ),
          ),
        ),
      ),
    ),
  )

  -- `sebsd_csflag_bits` into a buffer of the 32 bytes that `sebsd_trace_exec` has leaves nothing out:
  -- the text that is printed contains the letter of a flag just if that flag is set, for each of the
  -- ten flags and whatever their masks are.
  pub csflag_bits-Tells :
      (buf : List ℕ)
      → 32 ≤ length buf
      → (out : List ℕ) × (csflag_bits k flags buf 32 ≡ some out)
        × Tells flags (c_string out) (csflag_table k)
  csflag_bits-Tells buf room =
      let named = csflag_bits-Named k flags buf 32 (omega arith) room in
      let whole = take-all 31 (joined (letters flags table)) (all_letters k flags) in
      (named.left, named.written, rw (named.prints, whole) joined-Tells)
