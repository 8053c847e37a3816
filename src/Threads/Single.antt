-- ===== src/Threads/Single.antt =====
-- Which call of kext/main.c or kext/vnode.c is in the middle of a change of the mask and the ops vector.
use sedarwin.Prelude.{
  ℕ, ◌+◌, ◌≤◌, Bool, true, false, List, [], ◌∷◌, ◌++◌, Option, none, some, ◌≡◌, ◌∙◌, refl, ap, sym,
  arith, if◌then◌else◌,
}
use sedarwin.Lookup.Steps.{load_mask, store_mask}
use sedarwin.Threads.{install, Task, handling, looking}

-- A call between its first and its last store to the mask or the vector.
abbrev pub writing : Task → Bool
writing (handling req (install value (h ∷ hs))) = true
writing (looking self (load_mask reentered)) = true
writing (looking self (store_mask reentered mask)) = true
writing _ = false

abbrev pub writers : List Task → ℕ
writers [] = 0
writers (t ∷ ts) = (if writing t then 1 else 0) + writers ts

-- The first of them.
abbrev pub writer : List Task → Option Task
writer [] = none
writer (t ∷ ts) = let rest = writer ts in if writing t then some t else rest

pub writers-append : (xs ys : List Task) → writers (xs ++ ys) ≡ writers xs + writers ys
writers-append [] ys = omega arith
writers-append (x ∷ xs) ys = omega (arith, writers-append xs ys)

writers-three :
    (xs zs ys : List Task) → writers (xs ++ (zs ++ ys)) ≡ writers xs + writers zs + writers ys
writers-three xs zs ys = omega (arith, writers-append xs (zs ++ ys), writers-append zs ys)

writer-before : (xs zs : List Task) → writers xs ≡ 0 → writer (xs ++ zs) ≡ writer zs
writer-before [] zs e = refl
writer-before (x ∷ xs) zs e = ground (arith, writer-before xs zs)

writer-after : (zs ys : List Task) → writers ys ≡ 0 → writer (zs ++ ys) ≡ writer zs
writer-after [] [] e = refl
writer-after [] (y ∷ ys) e = ground (arith, writer-after [] ys)
writer-after (z ∷ zs) ys e = ground (arith, writer-after zs ys)

-- A call that is a writer neither before nor after its access: the writer is the same.
pub writer-idle :
    (xs zs ws ys : List Task)
    → writers zs ≡ 0
    → writers ws ≡ 0
    → writer (xs ++ (zs ++ ys)) ≡ writer (xs ++ (ws ++ ys))
writer-idle [] zs ws ys z w = writer-before zs ys z ∙ sym (writer-before ws ys w)
writer-idle (x ∷ xs) zs ws ys z w =
    ap (λ o. if writing x then some x else o) (writer-idle xs zs ws ys z w)

-- The only writer is that of the middle.
pub writer-middle :
    (xs zs ys : List Task) → writers xs ≡ 0 → writers ys ≡ 0 → writer (xs ++ (zs ++ ys)) ≡ writer zs
writer-middle xs zs ys x y = writer-before xs (zs ++ ys) x ∙ writer-after zs ys y

-- If a writer is in the middle, before or after an access, there is none beside it.
pub beside_writer :
    (xs zs ws ys : List Task)
    → writers (xs ++ (zs ++ ys)) ≤ 1
    → writers (xs ++ (ws ++ ys)) ≤ 1
    → 1 ≤ writers zs + writers ws
    → (writers xs ≡ 0) × (writers ys ≡ 0)
beside_writer xs zs ws ys before after one = (
  omega (arith, writers-three xs zs ys, writers-three xs ws ys),
  omega (arith, writers-three xs zs ys, writers-three xs ws ys),
)

pub writers-none : (ts : List Task) → writers ts ≡ 0 → writer ts ≡ none
writers-none [] e = refl
writers-none (t ∷ ts) e = ground (arith, writers-none ts)
