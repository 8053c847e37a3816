-- ===== src/Net/Texts.antt =====
-- The texts that kext/net.c formats an address to: their lengths, and how they are read back.
use sedarwin.Prelude.{
  ℕ, ◌+◌, ◌*◌, ◌/◌, ◌%◌, ◌^◌, ◌≤◌, ◌<◌, ◌≡◌, ◌∙◌, ap, refl, false, List, [], ◌∷◌, ◌++◌, Option,
  none, some, ◌==◌, if◌then◌else◌, arith, length, take, length-append,
}
use sedarwin.Bytes.Laws.{IsText, IsText-append}
use sedarwin.Net.{decimal, hex_digit, hex_byte, dotted, colon_pairs, grouped, read_bytes}
use sedarwin.Net.Digits.{
  read_fields, read_fields-end, read_fields-separator, decimal_bounds, hex_value,
  hex_value-hex_digit, hex_byte-IsText,
}
use sedarwin.Bytes.Laws.{AreBytes}

pub dotted_bounds :
    (xs : List ℕ) (port : ℕ)
    → (length (dotted xs port) ≤ length xs * 6 + 5) × IsText (dotted xs port)
unfolding dotted
dotted_bounds [] port = (omega (arith, decimal_bounds port), (decimal_bounds port).1)
dotted_bounds (a ∷ []) port = (
  omega (
    arith,
    decimal_bounds a,
    decimal_bounds port,
    length-append (decimal a) (b':' ∷ decimal port),
  ),
  IsText-append (decimal a) (b':' ∷ decimal port) (decimal_bounds a).1
      (omega arith, (decimal_bounds port).1),
)
dotted_bounds (a ∷ b ∷ rest) port =
    let (short, text) = dotted_bounds (b ∷ rest) port in
    (
      omega (arith, decimal_bounds a, length-append (decimal a) (b'.' ∷ dotted (b ∷ rest) port)),
      IsText-append (decimal a) (b'.' ∷ dotted (b ∷ rest) port) (decimal_bounds a).1
          (omega arith, text),
    )

colon_pairs_bounds :
    (xs : List ℕ) → (length (colon_pairs xs) ≤ length xs * 3) × IsText (colon_pairs xs)
unfolding colon_pairs hex_byte
colon_pairs_bounds [] = (omega arith, tt)
colon_pairs_bounds (a ∷ []) = (omega arith, (omega arith, hex_byte-IsText a))
colon_pairs_bounds (a ∷ b ∷ rest) =
    let (short, text) = colon_pairs_bounds rest in
    (
      omega arith,
      (
        omega arith,
        IsText-append (hex_byte a) (hex_byte b ++ colon_pairs rest) (hex_byte-IsText a)
            (IsText-append (hex_byte b) (colon_pairs rest) (hex_byte-IsText b) text),
      ),
    )

pub read_dotted :
    (xs : List ℕ) (port : ℕ)
    → AreBytes xs
    → port < 2 ^ 16
    → read_fields (dotted xs port) 0 ≡ xs ++ (port ∷ [])
unfolding dotted
read_dotted [] port h p = read_fields-end port p
read_dotted (a ∷ []) port h p =
    read_fields-separator a b':' (decimal port) (omega arith) refl
    ∙ ap (◌∷◌ a) (read_fields-end port p)
read_dotted (a ∷ b ∷ rest) port h p =
    read_fields-separator a b'.' (dotted (b ∷ rest) port) (omega arith) refl
    ∙ ap (◌∷◌ a) (read_dotted (b ∷ rest) port h.1 p)

-- Pairs of hex digits, passing over colons; the second argument is a first digit that waits.
pub read_hex : List ℕ → Option ℕ → List ℕ
read_hex [] pending = []
read_hex (c ∷ cs) none = if c == b':' then read_hex cs none else read_hex cs (some (hex_value c))
read_hex (c ∷ cs) (some high) = (high * 16 + hex_value c) ∷ read_hex cs none

not_colon : (n : ℕ) → n < 16 → (hex_digit n == b':') ≡ false
unfolding hex_digit
not_colon n h = ground arith

read_hex-hex_byte :
    (b : ℕ) (rest : List ℕ) → b < 256 → read_hex (hex_byte b ++ rest) none ≡ b ∷ read_hex rest none
unfolding read_hex hex_byte
read_hex-hex_byte b rest h =
    let high = hex_value-hex_digit (b / 16) (omega arith) in
    let low = hex_value-hex_digit (b % 16) (omega arith) in
    let digit = not_colon (b / 16) (omega arith) in
    rw (digit, high, low) (ap (λ n. n ∷ read_hex rest none) (omega arith))

read_hex-colon_pairs : (xs : List ℕ) → AreBytes xs → read_hex (colon_pairs xs) none ≡ xs
unfolding read_hex colon_pairs
read_hex-colon_pairs [] h = refl
read_hex-colon_pairs (a ∷ []) h = read_hex-hex_byte a [] h.0
read_hex-colon_pairs (a ∷ b ∷ rest) h =
    read_hex-hex_byte a (hex_byte b ++ colon_pairs rest) h.0
    ∙ ap (◌∷◌ a) (
        read_hex-hex_byte b (colon_pairs rest) h.1.0 ∙ ap (◌∷◌ b) (read_hex-colon_pairs rest h.1.1))

pub read_bytes_lem : (n : ℕ) (a : List ℕ) → n ≤ length a → read_bytes n a ≡ some (take n a)
unfolding read_bytes
read_bytes_lem n a h = ground arith

pub pairs_of :
    (P : List ℕ → List ℕ → Type 0)
    → ((a b : ℕ) (rest : List ℕ)
        → P (a ∷ b ∷ rest) (hex_byte a ++ (hex_byte b ++ colon_pairs rest)))
    → (xs : List ℕ) → 2 ≤ length xs
    → P xs (grouped xs)
unfolding grouped
pairs_of P h [] l = absurd (omega arith)
pairs_of P h (a ∷ []) l = absurd (omega arith)
pairs_of P h (a ∷ b ∷ rest) l = h a b rest

grouped_short :
    (a b : ℕ) (rest : List ℕ)
    → length (colon_pairs rest) ≤ length rest * 3
    → length (hex_byte a ++ (hex_byte b ++ colon_pairs rest)) ≤ length (a ∷ b ∷ rest) * 3
unfolding hex_byte
grouped_short a b rest h = omega arith

pub grouped_bounds :
    (xs : List ℕ) → 2 ≤ length xs → (length (grouped xs) ≤ length xs * 3) × IsText (grouped xs)
grouped_bounds xs l =
    pairs_of (λ xs text. (length text ≤ length xs * 3) × IsText text)
      (λ a b rest.
        let (short, text) = colon_pairs_bounds rest in
        (
          grouped_short a b rest short,
          IsText-append (hex_byte a) (hex_byte b ++ colon_pairs rest) (hex_byte-IsText a)
              (IsText-append (hex_byte b) (colon_pairs rest) (hex_byte-IsText b) text),
        ))
      xs l

pub read_hex-grouped : (xs : List ℕ) → 2 ≤ length xs → AreBytes xs → read_hex (grouped xs) none ≡ xs
read_hex-grouped xs l =
    pairs_of (λ xs text. AreBytes xs → read_hex text none ≡ xs)
      (λ a b rest h.
        read_hex-hex_byte a (hex_byte b ++ colon_pairs rest) h.0
        ∙ ap (◌∷◌ a) (
            read_hex-hex_byte b (colon_pairs rest) h.1.0
            ∙ ap (◌∷◌ b) (read_hex-colon_pairs rest h.1.1)))
      xs l
