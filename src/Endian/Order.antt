-- ===== src/Endian/Order.antt =====
-- Values and their bytes, for the conversions of lib/libkern-bsd/include/sys/endian.h on a
-- little-endian machine.
use mathlib.Core.List.{reverse, reverse-cons, reverse-reverse}
use sedarwin.Prelude.{
  ℕ, zero, suc, ◌+◌, ◌*◌, ◌/◌, ◌%◌, ◌<◌, List, [], ◌∷◌, ◌≡◌, ◌∙◌, refl, sym, subst, ap, arith,
  length, length-append,
}
use sedarwin.Bytes.Laws.{AreBytes, AreBytes-append}
use sedarwin.Endian.{Width, w16, w32, w64, ByteOrder, htole, letoh, htobe, betoh, bswap}

-- The bytes of a value as the machine stores it, and back.
abbrev pub bytes : ℕ → ℕ → List ℕ
bytes zero x = []
bytes (suc n) x = x % 256 ∷ bytes n (x / 256)

abbrev pub value : List ℕ → ℕ
value [] = 0
value (b ∷ bs) = b + 256 * value bs

-- One more than the largest value of so many bytes.
abbrev pub size : ℕ → ℕ
size zero = 1
size (suc n) = 256 * size n

bytes-AreBytes : (n x : ℕ) → AreBytes (bytes n x)
bytes-AreBytes zero x = tt
bytes-AreBytes (suc n) x = (omega arith, bytes-AreBytes n (x / 256))

length-bytes : (n x : ℕ) → length (bytes n x) ≡ n
length-bytes zero x = refl
length-bytes (suc n) x = omega (arith, length-bytes n (x / 256))

value-bytes : (n x : ℕ) → x < size n → value (bytes n x) ≡ x
value-bytes zero x h = omega arith
value-bytes (suc n) x h = omega (arith, value-bytes n (x / 256) (omega arith))

value-lt : (bs : List ℕ) → AreBytes bs → value bs < size (length bs)
value-lt [] h = omega arith
value-lt (b ∷ bs) h = omega (arith, value-lt bs h.1, h.0)

bytes-value : (bs : List ℕ) → AreBytes bs → bytes (length bs) (value bs) ≡ bs
bytes-value [] h = refl
bytes-value (b ∷ bs) h =
    let low : (b + 256 * value bs) % 256 ≡ b = omega (arith, h.0) in
    let rest : (b + 256 * value bs) / 256 ≡ value bs = omega (arith, h.0) in
    rw (low, rest) (ap (◌∷◌ b) (bytes-value bs h.1))

AreBytes-reverse : (bs : List ℕ) → AreBytes bs → AreBytes (reverse bs)
AreBytes-reverse [] h = tt
AreBytes-reverse (b ∷ bs) h =
    rw (reverse-cons b bs)
      (AreBytes-append (reverse bs) (b ∷ []) (AreBytes-reverse bs h.1) (h.0, tt))

length-reverse : (bs : List ℕ) → length (reverse bs) ≡ length bs
length-reverse [] = refl
length-reverse (b ∷ bs) =
    omega
      (arith, ap length (reverse-cons b bs), length-append (reverse bs) (b ∷ []), length-reverse bs)

-- The bytes in the other order.
abbrev pub swapped : ℕ → ℕ → ℕ
swapped n x = value (reverse (bytes n x))

module _ (n x : ℕ) where
  lengths : length (reverse (bytes n x)) ≡ n
  lengths = length-reverse (bytes n x) ∙ length-bytes n x

  others : AreBytes (reverse (bytes n x))
  others = AreBytes-reverse (bytes n x) (bytes-AreBytes n x)

  bytes-swapped : bytes n (swapped n x) ≡ reverse (bytes n x)
  bytes-swapped =
      ap (λ k. bytes k (swapped n x)) (sym lengths) ∙ bytes-value (reverse (bytes n x)) others

  swapped-lt : swapped n x < size n
  swapped-lt = subst (λ k. swapped n x < size k) lengths (value-lt (reverse (bytes n x)) others)

swapped-swapped : (n x : ℕ) → x < size n → swapped n (swapped n x) ≡ x
swapped-swapped n x h =
    ap (λ bs. value (reverse bs)) (bytes-swapped n x)
    ∙ ap value (reverse-reverse (bytes n x))
    ∙ value-bytes n x h

abbrev pub bytes_of : Width → ℕ
bytes_of w16 = 2
bytes_of w32 = 4
bytes_of w64 = 8

-- What <libkern/OSByteOrder.h> is documented to do on a little-endian machine: the conversions from and
-- to little-endian change nothing, the others turn the bytes of a value round.
pub record Documented (o : ByteOrder) : Type 0 where
  pub host_to_little :
      (w : Width) (x : ℕ) → x < size (bytes_of w) → o.os_swap_host_to_little_int w x ≡ x
  pub little_to_host :
      (w : Width) (x : ℕ) → x < size (bytes_of w) → o.os_swap_little_to_host_int w x ≡ x
  pub host_to_big :
      (w : Width) (x : ℕ)
      → x < size (bytes_of w)
      → o.os_swap_host_to_big_int w x ≡ swapped (bytes_of w) x
  pub big_to_host :
      (w : Width) (x : ℕ)
      → x < size (bytes_of w)
      → o.os_swap_big_to_host_int w x ≡ swapped (bytes_of w) x
  pub swaps :
      (w : Width) (x : ℕ) → x < size (bytes_of w) → o.os_swap_int w x ≡ swapped (bytes_of w) x

-- What FreeBSD's sources expect of the five conversions of a width.
pub record Converts (n x : ℕ) (to_little from_little to_big from_big swap : ℕ → ℕ) : Type 0 where
  -- in memory the least significant byte comes first, or the most significant one
  pub little : bytes n (to_little x) ≡ bytes n x
  pub big : bytes n (to_big x) ≡ reverse (bytes n x)
  pub little_back : from_little (to_little x) ≡ x
  pub big_back : from_big (to_big x) ≡ x
  pub swap_back : swap (swap x) ≡ x
  pub crossed : from_big (to_little x) ≡ swap x

-- A function does the same as another one to each value of so many bytes.
abbrev Does : ℕ → (ℕ → ℕ) → (ℕ → ℕ) → Type 0
Does n f g = (x : ℕ) → x < size n → f x ≡ g x

converts :
    (n x : ℕ) (to_little from_little to_big from_big swap : ℕ → ℕ)
    → x < size n
    → Does n to_little (λ y. y)
    → Does n from_little (λ y. y)
    → Does n to_big (swapped n)
    → Does n from_big (swapped n)
    → Does n swap (swapped n)
    → Converts n x to_little from_little to_big from_big swap
converts n x to_little from_little to_big from_big swap h tl fl tb fb sw = record {
  little = ap (bytes n) (tl x h);
  big = ap (bytes n) (tb x h) ∙ bytes-swapped n x;
  little_back = ap from_little (tl x h) ∙ fl x h;
  big_back = ap from_big (tb x h) ∙ fb (swapped n x) (swapped-lt n x) ∙ swapped-swapped n x h;
  swap_back = ap swap (sw x h) ∙ sw (swapped n x) (swapped-lt n x) ∙ swapped-swapped n x h;
  crossed = ap from_big (tl x h) ∙ fb x h ∙ sym (sw x h);
}

module _ (o : ByteOrder) (d : Documented o) where
  -- At each width and for each value of it: `htole` stores the least significant byte first and
  -- `htobe` the most significant one, `letoh` and `betoh` undo them, `bswap` undoes itself, and it is
  -- what reading in the wrong order does. The functions of libkern are to behave as documented.
  pub conversions-Converts :
      (w : Width) (x : ℕ)
      → x < size (bytes_of w)
      → Converts (bytes_of w) x (htole o w) (letoh o w) (htobe o w) (betoh o w) (bswap o w)
  unfolding htole letoh htobe betoh bswap
  conversions-Converts w16 x h =
      converts (bytes_of w16) x (htole o w16) (letoh o w16) (htobe o w16) (betoh o w16)
        (bswap o w16) h (d.host_to_little w16) (d.little_to_host w16) (d.host_to_big w16)
        (d.big_to_host w16) (d.swaps w16)
  conversions-Converts w32 x h =
      converts (bytes_of w32) x (htole o w32) (letoh o w32) (htobe o w32) (betoh o w32)
        (bswap o w32) h (d.host_to_little w32) (d.little_to_host w32) (d.host_to_big w32)
        (d.big_to_host w32) (d.swaps w32)
  conversions-Converts w64 x h =
      converts (bytes_of w64) x (htole o w64) (letoh o w64) (htobe o w64) (betoh o w64)
        (bswap o w64) h (d.host_to_little w64) (d.little_to_host w64) (d.host_to_big w64)
        (d.big_to_host w64) (d.swaps w64)
