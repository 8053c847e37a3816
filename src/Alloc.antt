-- ===== src/Alloc.antt =====
-- The allocator wrapper of lib/libkern-bsd: malloc.c, and the `malloc` macro of include/sys/malloc.h,
-- which zeroes in place. The kernel's `_MALLOC` and `_FREE` are parameters.
pub mod Zeroed
use mathlib.Core.Option
use sedarwin.Prelude.{
  ℕ, Bool, List, ◌++◌, Option, none, some, not, ◌&&◌, ◌||◌, ◌==◌, bit_and, if◌then◌else◌, drop,
  replicate, leb, length,
}
use sedarwin.Mask.{complement}

-- The bytes of the object at each address, and what the allocator keeps for itself.
pub record Memory : Type 0 where
  pub object : ℕ → Option (List ℕ)
  pub private_state : ℕ

pub record Allocator : Type 0 where
  -- `_MALLOC(size, type, flags)`: the memory after it, and the pointer; NULL is 0
  pub kernel_malloc : (m : Memory) (size kind flags : ℕ) → Memory × ℕ
  -- `_FREE(addr, type)`
  pub kernel_free : (m : Memory) (addr kind : ℕ) → Memory
  pub m_waitok : ℕ
  pub m_zero : ℕ

-- What a call of the macro knows when it is compiled.
pub record Site : Type 0 where
  pub constant_size : Bool
  pub constant_flags : Bool

-- The first `size` bytes of the object at an address are zero, the others as before.
abbrev pub zero_fill : Memory → ℕ → ℕ → Memory
zero_fill m addr size = record m {
  object = λ q.
      if q == addr
      then Option.map (λ item. replicate size 0 ++ drop size item) (m.object q)
      else m.object q;
}

-- `memset(addr, 0, size)`: a fault if there is no object, or a smaller one.
unfoldable pub memset_zero : Memory → ℕ → ℕ → Option Memory
memset_zero m addr size = elim (m.object addr) [
  | none ↦ none
  | some item ↦ if leb size (length item) then some (zero_fill m addr size) else none
]

module _ (a : Allocator) where
  open a use {kernel_malloc, kernel_free, m_waitok, m_zero}

  -- `(malloc)(size, type, flags)`
  unfoldable pub malloc_function : Memory → (size kind flags : ℕ) → Memory × ℕ
  malloc_function m size kind flags = kernel_malloc m size kind flags

  -- `free(addr, type)`
  unfoldable pub free : Memory → (addr kind : ℕ) → Memory
  free m addr kind = kernel_free m addr kind

  -- `if ((flags & M_WAITOK) != 0 || item != NULL) memset(item, 0, size)`
  unfoldable pub zero_in_place : ℕ → Memory × ℕ → ℕ → Option (Memory × ℕ)
  unfolding memset_zero
  zero_in_place flags (m, item) size =
      if not (bit_and flags m_waitok == 0) || not (item == 0)
      then Option.map (λ n. (n, item)) (memset_zero m item size)
      else some (m, item)

  -- The macro `malloc(size, type, flags)`: the memory and the pointer, or a fault.
  unfoldable pub malloc : Site → Memory → (size kind flags : ℕ) → Option (Memory × ℕ)
  unfolding malloc_function zero_in_place
  malloc site m size kind flags =
      if (site.constant_size && site.constant_flags) && not (bit_and flags m_zero == 0)
      then zero_in_place flags (malloc_function m size kind (bit_and flags (complement m_zero)))
          size
      else some (malloc_function m size kind flags)
