-- ===== src/Lookup/Frames.antt =====
-- The calls of the lookup hook of kext/vnode.c that are on the way: tests and sums over where they
-- stand, when one of them makes an access.
use sedarwin.Prelude.{
  ℕ, ◌+◌, Bool, false, List, [], ◌∷◌, ◌++◌, Option, none, some, ◌≡◌, refl, arith, ◌||◌, subst,
}
use sedarwin.Policy.{Kext}
use sedarwin.Lookup.Steps.{Point, Frame, stays, advance, Moves}

-- Some call stands at such a point.
abbrev pub any_at : (Point → Bool) → List Frame → Bool
any_at test [] = false
any_at test (f ∷ fs) = test f.point || any_at test fs

-- The sum over the calls.
abbrev pub total_at : (Point → ℕ) → List Frame → ℕ
total_at weigh [] = 0
total_at weigh (f ∷ fs) = weigh f.point + total_at weigh fs

-- An access of which the outcome is known.
pub access_to :
    {k t : Kext} {q : Point} (xs ys : List Frame) (self : ℕ) (p : Point)
    → advance self p k ≡ (t, some q)
    → Moves
        (record { kext = k; frames = xs ++ (record { thread = self; point = p } ∷ ys) })
        (record { kext = t; frames = xs ++ (record { thread = self; point = q } ∷ ys) })
access_to {k} {t} {q} xs ys self p e =
    subst
      (λ o.
        Moves (record { kext = k; frames = xs ++ (record { thread = self; point = p } ∷ ys) })
          (record { kext = o.0; frames = xs ++ (stays self o.1 ++ ys) }))
      e (Moves.access k xs ys self p)

-- What is said of a call that has returned.
abbrev pub test_next : (Point → Bool) → Option Point → Bool
test_next test none = false
test_next test (some p) = test p

abbrev pub weigh_next : (Point → ℕ) → Option Point → ℕ
weigh_next weigh none = 0
weigh_next weigh (some p) = weigh p

module _ (test : Point → Bool) where
  pub any_at-append :
      (fs gs : List Frame) → any_at test (fs ++ gs) ≡ (any_at test fs || any_at test gs)
  any_at-append [] gs = refl
  any_at-append (f ∷ fs) gs = ground (arith, any_at-append fs gs)

  -- A call among others, before its access and after it.
  pub any_at-frame :
      (xs ys : List Frame) (f : Frame)
      → any_at test (xs ++ (f ∷ ys)) ≡ (test f.point || any_at test (xs ++ ys))
  any_at-frame xs ys f = ground (arith, any_at-append xs (f ∷ ys), any_at-append xs ys)

  pub any_at-stays :
      (xs ys : List Frame) (self : ℕ) (o : Option Point)
      → any_at test (xs ++ (stays self o ++ ys)) ≡ (test_next test o || any_at test (xs ++ ys))
  any_at-stays xs ys self none = refl
  any_at-stays xs ys self (some p) = any_at-frame xs ys (record { thread = self; point = p })

module _ (weigh : Point → ℕ) where
  pub total_at-append :
      (fs gs : List Frame) → total_at weigh (fs ++ gs) ≡ total_at weigh fs + total_at weigh gs
  total_at-append [] gs = omega arith
  total_at-append (f ∷ fs) gs = omega (arith, total_at-append fs gs)

  pub total_at-frame :
      (xs ys : List Frame) (f : Frame)
      → total_at weigh (xs ++ (f ∷ ys)) ≡ weigh f.point + total_at weigh (xs ++ ys)
  total_at-frame xs ys f = omega (arith, total_at-append xs (f ∷ ys), total_at-append xs ys)

  pub total_at-stays :
      (xs ys : List Frame) (self : ℕ) (o : Option Point)
      → total_at weigh (xs ++ (stays self o ++ ys)) ≡ weigh_next weigh o + total_at weigh (xs ++ ys)
  total_at-stays xs ys self none = omega arith
  total_at-stays xs ys self (some p) = total_at-frame xs ys (record { thread = self; point = p })
