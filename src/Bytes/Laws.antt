-- ===== src/Bytes/Laws.antt =====
-- What the buffer operations leave behind.
use sedarwin.Prelude.{
  ℕ, zero, suc, ◌-◌, ◌≤◌, ◌<◌, min, List, [], ◌∷◌, ◌++◌, Option, some, ◌≡◌, ◌≢◌, refl, ap, arith,
  length, take, drop, set, length-append, length-take, length-drop, take-min-length, ◌∙◌,
}
use sedarwin.Bytes.{c_string, store, strlcpy}

-- No byte of a text is NUL.
abbrev pub IsText : List ℕ → Type 0
IsText [] = Unit
IsText (b ∷ bs) = (b ≢ 0) × IsText bs

pub IsText-append : (bs cs : List ℕ) → IsText bs → IsText cs → IsText (bs ++ cs)
IsText-append [] cs h k = k
IsText-append (b ∷ bs) cs h k = (h.0, IsText-append bs cs h.1 k)

pub IsText-take : (n : ℕ) (bs : List ℕ) → IsText bs → IsText (take n bs)
IsText-take zero bs h = tt
IsText-take (suc n) [] h = tt
IsText-take (suc n) (b ∷ bs) h = (h.0, IsText-take n bs h.1)

-- Every number of the list is a byte.
abbrev pub AreBytes : List ℕ → Type 0
AreBytes [] = Unit {0}
AreBytes (b ∷ bs) = (b < 256) × AreBytes bs

pub AreBytes-take : (n : ℕ) (bs : List ℕ) → AreBytes bs → AreBytes (take n bs)
AreBytes-take zero bs h = tt
AreBytes-take (suc n) [] h = tt
AreBytes-take (suc n) (b ∷ bs) h = (h.0, AreBytes-take n bs h.1)

pub AreBytes-append : (bs cs : List ℕ) → AreBytes bs → AreBytes cs → AreBytes (bs ++ cs)
AreBytes-append [] cs h k = k
AreBytes-append (b ∷ bs) cs h k = (h.0, AreBytes-append bs cs h.1 k)

pub c_string-text : (bs rest : List ℕ) → IsText bs → c_string (bs ++ (0 ∷ rest)) ≡ bs
unfolding c_string
c_string-text [] rest h = refl
c_string-text (b ∷ bs) rest h = ground (arith, c_string-text bs rest h.1, h.0)

-- What stands behind a NUL is not printed.
pub c_string-terminated : (bs rest : List ℕ) → c_string (bs ++ (0 ∷ rest)) ≡ c_string bs
unfolding c_string
c_string-terminated [] rest = refl
c_string-terminated (b ∷ bs) rest = ground (arith, c_string-terminated bs rest)

pub length-c_string : (bs : List ℕ) → length (c_string bs) ≤ length bs
unfolding c_string
length-c_string [] = omega arith
length-c_string (b ∷ bs) = ground (arith, length-c_string bs)

-- The bytes before the first NUL hold none.
pub c_string-IsText : (bs : List ℕ) → IsText (c_string bs)
unfolding c_string
c_string-IsText [] = tt
c_string-IsText (b ∷ bs) = ground (arith, c_string-IsText bs)

pub drop-all {ℓ} : {A : Type ℓ} (n : ℕ) (xs : List A) → length xs ≤ n → drop n xs ≡ []
drop-all zero [] h = refl
drop-all zero (x ∷ xs) h = absurd (omega arith)
drop-all (suc n) [] h = refl
drop-all (suc n) (x ∷ xs) h = drop-all n xs (omega arith)

-- A store at the end of a copied prefix.
pub set-append : (xs ys : List ℕ) (v : ℕ) → set (xs ++ ys) (length xs) v ≡ xs ++ set ys 0 v
set-append [] ys v = refl
set-append (x ∷ xs) ys v = ap (◌∷◌ x) (set-append xs ys v)

pub set-append_at :
    (xs ys : List ℕ) (v : ℕ) {n : ℕ} → length xs ≡ n → set (xs ++ ys) n v ≡ xs ++ set ys 0 v
set-append_at xs ys v e = rw (← e) (set-append xs ys v)

pub set_zero-drop :
    (n : ℕ) (xs : List ℕ) (v : ℕ) → n < length xs → set (drop n xs) 0 v ≡ v ∷ drop (suc n) xs
set_zero-drop n [] v h = absurd (omega arith)
set_zero-drop zero (x ∷ xs) v h = refl
set_zero-drop (suc n) (x ∷ xs) v h = set_zero-drop n xs v (omega arith)

pub store_lem : (buf : List ℕ) (i v : ℕ) → i < length buf → store buf i v ≡ some (set buf i v)
unfolding store
store_lem buf i v h = ground arith

-- `strlcpy` with a size that the buffer has writes inside it, keeps its length, and leaves the
-- text, cut to the size less one, before a NUL.
pub strlcpy_lem :
    (buf src : List ℕ) (size : ℕ)
    → 0 < size
    → size ≤ length buf
    → strlcpy buf src size
      ≡ some (
          take (min (length src) (size - 1)) src
          ++ (0 ∷ drop (suc (min (length src) (size - 1))) buf))
unfolding strlcpy
strlcpy_lem buf src size p h = ground arith

pub length-strlcpy :
    (buf src : List ℕ) (size : ℕ) {out : List ℕ}
    → size ≤ length buf
    → strlcpy buf src size ≡ some out
    → length out ≡ length buf
unfolding strlcpy
length-strlcpy buf src size h e =
    let n = min (length src) (size - 1) in
    ground (
      arith,
      length-append (take n src) (0 ∷ drop (suc n) buf),
      length-take n src,
      length-drop (suc n) buf,
    )

pub c_string_text : (bs : List ℕ) → IsText bs → c_string bs ≡ bs
unfolding c_string
c_string_text [] h = refl
c_string_text (b ∷ bs) h = ground (arith, c_string_text bs h.1, h.0)

-- The buffer `out` is there, has kept its length, and prints `text`, which leaves room for a NUL.
pub record Named (buf text : List ℕ) (len : ℕ) (out : Option (List ℕ)) : Type 0 where
  pub left : List ℕ
  pub written : out ≡ some left
  pub kept : length left ≡ length buf
  pub prints : c_string left ≡ text
  pub short : length text < len

-- `strlcpy` of a text into a buffer of at least `size > 0` bytes.
pub strlcpy-Named :
    (src buf : List ℕ) (size : ℕ)
    → IsText src
    → 0 < size
    → size ≤ length buf
    → Named buf (take (size - 1) src) size (strlcpy buf src size)
strlcpy-Named src buf size t p h =
    let n : ℕ = min (length src) (size - 1) in
    record {
      left = take n src ++ (0 ∷ drop (suc n) buf);
      written = strlcpy_lem buf src size p h;
      kept = omega (
        arith,
        length-append (take n src) (0 ∷ drop (suc n) buf),
        length-take n src,
        length-drop (suc n) buf,
      );
      prints =
          c_string-terminated (take n src) (drop (suc n) buf)
          ∙ c_string_text (take n src) (IsText-take n src t)
          ∙ take-min-length (size - 1) src;
      short = omega (arith, length-take (size - 1) src);
    }
