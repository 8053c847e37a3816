-- ===== src/Threads/Cleared.antt =====
-- What an unload of kext/main.c has cleared in the ops vector, access by access.
use sedarwin.Prelude.{
  ℕ, false, List, [], ◌∷◌, ◌++◌, Option, none, some, ◌≡◌, ◌∙◌, inl, inr, refl, arith, ◌==◌,
  Bool-cases,
}
use sedarwin.Ops.{Ops, Function}
use sedarwin.Ops.Slots.{Hook, slot, bit_of}
use sedarwin.Ops.Stores.{store, chosen, slot-store-chosen}
use sedarwin.Policy.{Kext, Request, Framework}
use sedarwin.Lookup.Steps.{Point, advance}
use sedarwin.Threads.{
  Handling, install, load_registered, clear, unregister, store_registered, Task, handling,
  unloading, looking, Next, handle_access, unload_access, goes_on, looks_on, access,
}
use sedarwin.Threads.Writes.{Writes, access-IsAfter}
use sedarwin.Threads.Change.{pending, statements-pending}

-- A call does not store to the vector for a request.
abbrev pub IsQuiet : Task → Type 0
IsQuiet (handling req (install value left)) = ⊥
IsQuiet _ = Unit {0}

-- The statements that are behind an unload have left NULL.
abbrev pub Gone : Ops → Task → Type 0
Gone ops (unloading (clear left)) = (h : Hook) → pending h left ≡ false → slot h ops ≡ none
Gone ops (unloading unregister) = (h : Hook) → slot h ops ≡ none
Gone ops (unloading store_registered) = (h : Hook) → slot h ops ≡ none
Gone ops _ = Unit {0}

abbrev pub AllGone : Ops → List Task → Type 0
AllGone ops [] = Unit {0}
AllGone ops (t ∷ ts) = Gone ops t × AllGone ops ts

pub AllGone-join :
    (ops : Ops) (xs ys : List Task) → AllGone ops xs → AllGone ops ys → AllGone ops (xs ++ ys)
AllGone-join ops [] ys x y = y
AllGone-join ops (t ∷ xs) ys x y = (x.0, AllGone-join ops xs ys x.1 y)

pub AllGone-split :
    (ops : Ops) (xs ys : List Task) → AllGone ops (xs ++ ys) → AllGone ops xs × AllGone ops ys
AllGone-split ops [] ys a = (tt, a)
AllGone-split ops (t ∷ xs) ys a = let (x, y) = AllGone-split ops xs ys a.1 in ((a.0, x), y)

-- Members are kept or cleared.
abbrev pub IsLess : Ops → Ops → Type 0
IsLess ops later = (h : Hook) → slot h ops ≡ none → slot h later ≡ none

Gone-less : {ops later : Ops} (t : Task) → IsLess ops later → Gone ops t → Gone later t
Gone-less (unloading load_registered) less gone = tt
Gone-less (unloading (clear left)) less gone = λ h done. less h (gone h done)
Gone-less (unloading unregister) less gone = λ h. less h (gone h)
Gone-less (unloading store_registered) less gone = λ h. less h (gone h)
Gone-less (handling req p) less gone = tt
Gone-less (looking self p) less gone = tt

pub AllGone-less :
    {ops later : Ops} (ts : List Task) → IsLess ops later → AllGone ops ts → AllGone later ts
AllGone-less [] less gone = tt
AllGone-less (t ∷ ts) less gone = (Gone-less t less gone.0, AllGone-less ts less gone.1)

chosen_zero : (h : Hook) → chosen 0 h ≡ none
chosen_zero h = ground arith

Writes-none : {h : Hook} {t : Task} {v : Option Function} → Writes h t v → IsQuiet t → v ≡ none
Writes-none (Writes.asked req value left) quiet = absurd quiet
Writes-none {h} (Writes.cleared left) quiet = chosen_zero h
Writes-none (Writes.blown self reentered four) quiet = refl

pub access-IsLess :
    (f : Framework) (t : Task) (s : Kext) → IsQuiet t → IsLess s.ops (access f t s).0.ops
access-IsLess f t s quiet h empty = elim (access-IsAfter f h t s) [
  | inl same ↦ same ∙ empty
  | inr written ↦ Writes-none written quiet
]

goes_on-Gone :
    (ops : Ops) (req : Request) (o : Next Handling) → AllGone ops (goes_on (handling req) o)
goes_on-Gone ops req (Next.on p) = (tt, tt)
goes_on-Gone ops req (Next.returned value effects) = tt

looks_on-Gone : (ops : Ops) (self : ℕ) (o : Option Point) → AllGone ops (looks_on self o)
looks_on-Gone ops self none = tt
looks_on-Gone ops self (some p) = (tt, tt)

-- One statement of an unload.
cleared :
    (g h : Hook) (gs : List Hook) (ops : Ops)
    → ((k : Hook) → pending k (g ∷ gs) ≡ false → slot k ops ≡ none)
    → pending h gs ≡ false
    → slot h (store g (chosen 0 g) ops) ≡ none
cleared g h gs ops before done = elim (Bool-cases (bit_of h == bit_of g)) [
  | inl here ↦ slot-store-chosen h g 0 ops ∙ rw here (chosen_zero h)
  | inr away ↦ slot-store-chosen h g 0 ops ∙ rw away (before h (rw away done))
]

-- An access keeps the promise of its own call.
pub access-Gone :
    (f : Framework) (t : Task) (s : Kext)
    → Gone s.ops t
    → AllGone (access f t s).0.ops (access f t s).1
unfolding unload_access
access-Gone f (handling req p) s gone = goes_on-Gone _ req (handle_access f req p s).1
access-Gone f (looking self p) s gone = looks_on-Gone _ self (advance self p s).1
access-Gone f (unloading load_registered) s gone = elim (Bool-cases (s.registered == 0)) [
  | inl never ↦ rw never tt
  | inr live ↦ rw live ((λ h done. ground (arith, statements-pending h)), tt)
]
access-Gone f (unloading (clear [])) s gone = ((λ h. gone h refl), tt)
access-Gone f (unloading (clear (g ∷ gs))) s gone = ((λ h done. cleared g h gs s.ops gone done), tt)
access-Gone f (unloading unregister) s gone =
    elim (Bool-cases (f.mac_policy_unregister s.handle == 0)) [
      | inl fine ↦ rw fine (gone, tt)
      | inr refused ↦ rw refused tt
    ]
access-Gone f (unloading store_registered) s gone = tt
