-- ===== src/Alloc/Zeroed.antt =====
-- The zeroing `malloc` macro of lib/libkern-bsd/include/sys/malloc.h is the allocator that it stands
-- for.
use sedarwin.Prelude.{
  ℕ, true, List, some, ◌≡◌, ◌≢◌, ◌∙◌, refl, sym, ap, arith, inl, inr, not, ◌&&◌, ◌==◌, bit_and, leb,
  length, if◌then◌else◌, Bool-cases, ==_iff, ==_false, ℕ_discrete,
}
use sedarwin.Mask.{complement}
use sedarwin.Alloc.{
  Memory, Allocator, Site, zero_fill, malloc_function, memset_zero, zero_in_place, malloc,
}

-- What an allocation of zeroed bytes is, from one of any bytes.
abbrev pub zero_made : ℕ → Memory × ℕ → Memory × ℕ
zero_made size (m, item) = if item == 0 then (m, item) else (zero_fill m item size, item)

-- A pointer is NULL, or has an object of the size.
pub data Sized (size : ℕ) (m : Memory) (item : ℕ) : Type 0 where
  null : item ≡ 0 → Sized size m item
  sized :
      (bytes : List ℕ)
      → item ≢ 0
      → m.object item ≡ some bytes
      → leb size (length bytes) ≡ true
      → Sized size m item

-- What `_MALLOC` is documented to do.
pub record Documented (a : Allocator) : Type 0 where
  -- an allocation that may sleep succeeds
  pub waits :
      (m : Memory) (size kind flags : ℕ)
      → bit_and flags a.m_waitok ≢ 0
      → (a.kernel_malloc m size kind flags).1 ≢ 0
  -- the object has the size that was asked for
  pub sizes :
      (m : Memory) (size kind flags : ℕ)
      → Sized size (a.kernel_malloc m size kind flags).0 (a.kernel_malloc m size kind flags).1
  -- M_ZERO only zeroes the bytes that were asked for
  pub zeroes :
      (m : Memory) (size kind flags : ℕ)
      → bit_and flags a.m_zero ≢ 0
      → a.kernel_malloc m size kind flags
        ≡ zero_made size (a.kernel_malloc m size kind (bit_and flags (complement a.m_zero)))
  -- M_WAITOK is no bit of M_ZERO
  pub apart :
      (flags : ℕ)
      → bit_and (bit_and flags (complement a.m_zero)) a.m_waitok ≡ bit_and flags a.m_waitok

module _ (a : Allocator) (d : Documented a) where
  zero_in_place_null :
      (flags : ℕ) (m : Memory) (item size : ℕ)
      → bit_and flags a.m_waitok ≡ 0
      → item ≡ 0
      → zero_in_place a flags (m, item) size ≡ some (zero_made size (m, item))
  unfolding zero_in_place
  zero_in_place_null flags m item size asleep none_made =
      let e1 = (==_iff (bit_and flags a.m_waitok) 0).1 asleep in
      let e2 = (==_iff item 0).1 none_made in rw (e1, e2) refl

  memset_zero_lem :
      (m : Memory) (item size : ℕ) (bytes : List ℕ)
      → m.object item ≡ some bytes
      → leb size (length bytes) ≡ true
      → memset_zero m item size ≡ some (zero_fill m item size)
  unfolding memset_zero
  memset_zero_lem m item size bytes at fits = rw (memset_zero, at, fits) refl

  zero_in_place_made :
      (flags : ℕ) (m : Memory) (item size : ℕ) (bytes : List ℕ)
      → item ≢ 0
      → m.object item ≡ some bytes
      → leb size (length bytes) ≡ true
      → zero_in_place a flags (m, item) size ≡ some (zero_made size (m, item))
  unfolding zero_in_place
  zero_in_place_made flags m item size bytes made at fits =
      let e = ==_false item 0 made in
      let zeroed = memset_zero_lem m item size bytes at fits in
      elim (Bool-cases (bit_and flags a.m_waitok == 0)) [
        | inl asleep ↦ rw (asleep, e, zeroed) refl
        | inr awake ↦ rw (awake, e, zeroed) refl
      ]

  -- The allocation of the macro, without M_ZERO, and the zeroing after it.
  zero_in_place_lem :
      (m : Memory) (size kind flags : ℕ)
      → zero_in_place a flags
          (a.kernel_malloc m size kind (bit_and flags (complement a.m_zero)))
          size
        ≡ some (zero_made size (a.kernel_malloc m size kind (bit_and flags (complement a.m_zero))))
  zero_in_place_lem m size kind flags =
      let plain : ℕ = bit_and flags (complement a.m_zero) in
      let (n, item) = a.kernel_malloc m size kind plain in
      elim (d.sizes m size kind plain) [
        | Sized.null none_made ↦ elim (ℕ_discrete (bit_and flags a.m_waitok) 0) [
          | yes asleep ↦ zero_in_place_null flags n item size asleep none_made
          | no awake ↦
              let still : bit_and plain a.m_waitok ≢ 0 = λ e. awake (sym (d.apart flags) ∙ e) in
              absurd (d.waits m size kind plain still none_made)
        ]
        | Sized.sized bytes made at fits ↦ zero_in_place_made flags n item size bytes made at fits
      ]

  -- Wherever the macro is expanded, it does what the function does that it replaces: it does not
  -- fault, it gives the same pointer, NULL just when the function does, and it leaves the same
  -- memory. `_MALLOC` is to behave as documented.
  pub malloc_lem :
      (site : Site) (m : Memory) (size kind flags : ℕ)
      → malloc a site m size kind flags ≡ some (malloc_function a m size kind flags)
  unfolding malloc malloc_function
  malloc_lem site m size kind flags =
      elim (Bool-cases
        ((site.constant_size && site.constant_flags) && not (bit_and flags a.m_zero == 0))) [
          | inl in_place ↦
              let zero_bit : bit_and flags a.m_zero ≢ 0 = ground arith in
              rw in_place (
                zero_in_place_lem m size kind flags
                ∙ ap some (sym (d.zeroes m size kind flags zero_bit)))
          | inr plain ↦ rw plain refl
        ]
