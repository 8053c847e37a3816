-- ===== src/Net/Digits.antt =====
-- The digits that the address is printed in can be read back.
use sedarwin.Prelude.{
  ℕ, zero, suc, ◌+◌, ◌-◌, ◌*◌, ◌/◌, ◌%◌, ◌^◌, ◌≤◌, ◌<◌, ◌≡◌, ◌∙◌, ap, Bool, List, [], ◌∷◌, ◌++◌,
  ltb, leb, ◌&&◌, if◌then◌else◌, arith, true, false, inl, inr, Bool-cases, ltb→lt, length,
  length-append, append_assoc, append-nil, sym,
}
use sedarwin.Bytes.Laws.{IsText, IsText-append}
use sedarwin.Net.{decimal_fuel, decimal, hex_digit, hex_byte}

abbrev pub is_digit : ℕ → Bool
is_digit c = leb b'0' c && leb c b'9'

-- Numbers between separators.
pub read_fields : List ℕ → ℕ → List ℕ
read_fields [] acc = acc ∷ []
read_fields (c ∷ cs) acc =
    if is_digit c then read_fields cs (acc * 10 + (c - b'0')) else acc ∷ read_fields cs 0

-- What a number of at most `fuel + 1` digits is below.
abbrev ten_pow : ℕ → ℕ
ten_pow zero = 10
ten_pow (suc fuel) = ten_pow fuel * 10

pub read_digit :
    (d acc : ℕ) (cs : List ℕ)
    → d < 10
    → read_fields ((b'0' + d) ∷ cs) acc ≡ read_fields cs (acc * 10 + d)
unfolding read_fields
read_digit d acc cs h =
    let digit : is_digit (b'0' + d) ≡ true = ground arith in
    rw digit (ap (read_fields cs) (omega arith))

read_decimal_fuel :
    (fuel n : ℕ) (rest : List ℕ)
    → n < ten_pow fuel
    → read_fields (decimal_fuel fuel n ++ rest) 0 ≡ read_fields rest n
unfolding read_fields decimal_fuel
read_decimal_fuel zero n rest h =
    read_digit (n % 10) 0 rest (omega arith) ∙ ap (read_fields rest) (omega arith)
read_decimal_fuel (suc fuel) n rest h = elim (Bool-cases (ltb n 10)) [
  | inl small ↦
      rw small (read_digit n 0 rest (ltb→lt n 10 small) ∙ ap (read_fields rest) (omega arith))
  | inr big ↦ rw big (
      rw (append_assoc (decimal_fuel fuel (n / 10)) ((b'0' + n % 10) ∷ []) rest) (
        read_decimal_fuel fuel (n / 10) ((b'0' + n % 10) ∷ rest) (omega arith)
        ∙ read_digit (n % 10) (n / 10) rest (omega arith)
        ∙ ap (read_fields rest) (omega arith)))
]

pub read_fields-decimal :
    (n : ℕ) (rest : List ℕ) → n < 2 ^ 16 → read_fields (decimal n ++ rest) 0 ≡ read_fields rest n
unfolding decimal
read_fields-decimal n rest h = read_decimal_fuel 4 n rest (omega arith)

pub read_fields-end : (n : ℕ) → n < 2 ^ 16 → read_fields (decimal n) 0 ≡ n ∷ []
unfolding read_fields
read_fields-end n h =
    ap (λ cs. read_fields cs 0) (sym (append-nil (decimal n))) ∙ read_fields-decimal n [] h

-- A number, and the separator behind it.
pub read_fields-separator :
    (n c : ℕ) (rest : List ℕ)
    → n < 2 ^ 16
    → is_digit c ≡ false
    → read_fields (decimal n ++ (c ∷ rest)) 0 ≡ n ∷ read_fields rest 0
unfolding read_fields
read_fields-separator n c rest h d = read_fields-decimal n (c ∷ rest) h ∙ rw d

decimal_fuel_bounds :
    (fuel n : ℕ) → (length (decimal_fuel fuel n) ≤ fuel + 1) × IsText (decimal_fuel fuel n)
unfolding decimal_fuel
decimal_fuel_bounds zero n = ground arith
decimal_fuel_bounds (suc fuel) n = elim (Bool-cases (ltb n 10)) [
  | inl small ↦ rw small (omega arith, (omega arith, tt))
  | inr big ↦
      let (short, text) = decimal_fuel_bounds fuel (n / 10) in
      rw big (
        omega (arith, length-append (decimal_fuel fuel (n / 10)) ((b'0' + n % 10) ∷ [])),
        IsText-append (decimal_fuel fuel (n / 10)) ((b'0' + n % 10) ∷ []) text (omega arith, tt),
      )
]

pub hex_value : ℕ → ℕ
hex_value c = if ltb c b'a' then c - b'0' else c - b'a' + 10

pub hex_value-hex_digit : (n : ℕ) → n < 16 → hex_value (hex_digit n) ≡ n
unfolding hex_value hex_digit
hex_value-hex_digit n h = ground arith

pub hex_byte-IsText : (b : ℕ) → IsText (hex_byte b)
unfolding hex_byte
hex_byte-IsText b = ground arith

pub decimal_bounds : (n : ℕ) → (length (decimal n) ≤ 5) × IsText (decimal n)
unfolding decimal
decimal_bounds n = decimal_fuel_bounds 4 n
