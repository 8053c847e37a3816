-- ===== src/Bytes.antt =====
-- C character buffers: lists of bytes that keep their length. A copy or a store out of bounds is a
-- fault, `none`. These are the C library functions that the hooks call.
pub mod Laws
use sedarwin.Prelude.{
  ℕ, suc, ◌+◌, ◌-◌, min, Bool, List, [], ◌∷◌, ◌++◌, Option, none, some, ◌&&◌, ltb, leb, ◌==◌,
  if◌then◌else◌, length, take, drop, set,
}

-- What a `%s` prints of a buffer: the bytes before the first NUL.
unfoldable pub c_string : List ℕ → List ℕ
c_string [] = []
c_string (b ∷ bs) = if b == 0 then [] else b ∷ c_string bs

-- `memcpy(buf, src, n)`
unfoldable pub memcpy : List ℕ → List ℕ → ℕ → Option (List ℕ)
memcpy buf src n =
    if leb n (length buf) && leb n (length src) then some (take n src ++ drop n buf) else none

-- `buf[i] = v`
unfoldable pub store : List ℕ → ℕ → ℕ → Option (List ℕ)
store buf i v = if ltb i (length buf) then some (set buf i v) else none

-- `strlcpy(buf, src, size)`, also what `snprintf(buf, size, ...)` does with the formatted text.
unfoldable pub strlcpy : List ℕ → List ℕ → ℕ → Option (List ℕ)
strlcpy buf src size =
    let n = min (length src) (size - 1) in
    if size == 0
    then some buf
    else if leb (suc n) (length buf)
    then some (take n src ++ (0 ∷ drop (suc n) buf))
    else none
