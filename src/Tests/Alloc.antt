-- ===== src/Tests/Alloc.antt =====
-- The zeroing macro over an allocator that hands out addresses one after another, with
-- the M_WAITOK of 0 and the M_ZERO of 4 that XNU has.
use mathlib.Core.Path.{fun_ext}
use sedarwin.Prelude.{
  ℕ, suc, ◌++◌, true, none, some, List, Option, length-replicate, ◌≡◌, ◌≢◌, ◌∙◌, refl, sym, ap,
  arith, append-nil, bit_and-zero, inl, inr, Bool-cases, ◌==◌, if◌then◌else◌, ==_iff, replicate,
  drop,
}
use sedarwin.Bytes.Laws.{drop-all}
use sedarwin.Alloc.{Memory, Allocator, Site, zero_fill, malloc, malloc_function}
use sedarwin.Alloc.Zeroed.{Sized, zero_made, Documented, malloc_lem}

abbrev put : Memory → ℕ → ℕ → Memory
put m addr size = record {
  object = λ q. if q == addr then some (replicate size 0) else m.object q;
  private_state = addr;
}

abbrev allocator : Allocator
allocator = record {
  kernel_malloc = λ m size kind flags. (put m (suc m.private_state) size, suc m.private_state);
  kernel_free = λ m addr kind. record m { object = λ q. if q == addr then none else m.object q };
  m_waitok = 0;
  m_zero = 4;
}

blank : (size : ℕ) → replicate {A = ℕ} size 0 ++ drop size (replicate size 0) ≡ replicate size 0
blank size =
    let rest =
      drop-all {A = ℕ} size (replicate size 0) (omega (arith, length-replicate {A = ℕ} size 0)) in
    rw (rest, append-nil) refl

zero_fill-put :
    (m : Memory) (addr size : ℕ) → zero_fill (put m addr size) addr size ≡ put m addr size
zero_fill-put m addr size =
    ap (λ (f : ℕ → Option (List ℕ)). record { object = f; private_state = addr })
      (fun_ext λ q. elim (Bool-cases (q == addr)) [
        | inl here ↦ rw here (ap some (blank size))
        | inr other ↦ rw other refl
      ])

put-zero_made :
    (m : Memory) (addr size : ℕ) → (put m addr size, addr) ≡ zero_made size (put m addr size, addr)
put-zero_made m addr size = elim (Bool-cases (addr == 0)) [
  | inl null ↦ rw null refl
  | inr made ↦ rw made (ap (λ (n : Memory). (n, addr)) (sym (zero_fill-put m addr size)))
]

put-Sized : (m : Memory) (addr size : ℕ) → addr ≢ 0 → Sized size (put m addr size) addr
put-Sized m addr size real =
    let here : (addr == addr) ≡ true = (==_iff addr addr).1 refl in
    Sized.sized (replicate size 0) real (rw here refl)
      (rw (length-replicate {A = ℕ} size 0) (ground arith))

allocator-Documented : Documented allocator
allocator-Documented = record {
  waits = λ m size kind flags awake. absurd (awake (bit_and-zero flags));
  sizes = λ m size kind flags. put-Sized m (suc m.private_state) size (λ e. absurd (omega arith));
  zeroes = λ m size kind flags bit. put-zero_made m (suc m.private_state) size;
  apart = λ flags. bit_and-zero _ ∙ sym (bit_and-zero flags);
}

abbrev site : Site
site = record { constant_size = true; constant_flags = true }

abbrev empty : Memory
empty = record { object = λ q. none; private_state = 0 }

malloc_lem_example :
    malloc allocator site empty 3 80 5 ≡ some (malloc_function allocator empty 3 80 5)
malloc_lem_example = malloc_lem allocator allocator-Documented site empty 3 80 5
