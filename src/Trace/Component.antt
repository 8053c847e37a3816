-- ===== src/Trace/Component.antt =====
-- `sebsd_cnp_name` stays inside its buffer and terminates it.
use sedarwin.Prelude.{
  ℕ, suc, ◌-◌, ◌^◌, ◌≤◌, ◌<◌, min, List, ◌∷◌, ◌++◌, Option, none, some, ◌≡◌, ◌∙◌, ap, arith, length,
  take, drop, set, length-take, length-append, length-drop,
}
use sedarwin.Bytes.{c_string, memcpy, store}
use sedarwin.Bytes.Laws.{
  Named, strlcpy-Named, IsText, c_string-terminated, length-c_string, set-append_at, set_zero-drop,
}
use sedarwin.Trace.{ComponentName, none_name, copy_length, copy_name, pointed_name, cnp_name}

-- The number of bytes that are copied into a buffer of `len` bytes.
abbrev pub copied : ℕ → ℕ → ℕ
copied namelen len = min namelen (len - 1)

copy_step :
    (name buf : List ℕ) (n : ℕ)
    → n < length buf
    → n ≤ length name
    → (memcpy buf name n ≡ some (take n name ++ drop n buf))
      × (store (take n name ++ drop n buf) n 0 ≡ some (take n name ++ (0 ∷ drop (suc n) buf)))
unfolding memcpy store
copy_step name buf n h r =
    let taken : length (take n name) ≡ n = omega (arith, length-take n name) in
    let written : set (take n name ++ drop n buf) n 0 ≡ take n name ++ (0 ∷ drop (suc n) buf) =
      set-append_at (take n name) (drop n buf) 0 taken
      ∙ ap (◌++◌ (take n name)) (set_zero-drop n buf 0 h) in
    (ground arith, ground (arith, length-append (take n name) (drop n buf), length-drop n buf))

copy_length_lem :
    (namelen len : ℕ) → 0 < len → len < 2 ^ 64 → copy_length namelen len ≡ copied namelen len
unfolding copy_length
copy_length_lem namelen len p w = ground arith

-- The name is cut to the buffer's size less one and a NUL follows it, whatever the component's
-- length; the rest of the buffer stays as it was.
pub copy_name_lem :
    (name buf : List ℕ) (namelen len : ℕ)
    → 0 < len
    → len ≤ length buf
    → len < 2 ^ 64
    → copied namelen len ≤ length name
    → copy_name name namelen buf len
      ≡ some (take (copied namelen len) name ++ (0 ∷ drop (suc (copied namelen len)) buf))
unfolding copy_name
copy_name_lem name buf namelen len p h w r =
    let step = copy_step name buf (copied namelen len) (omega arith) r in
    ground (arith, copy_length_lem namelen len p w, step.0, step.1)

none_name-IsText : IsText none_name
none_name-IsText = ground arith

-- What the buffer shall print: the component's bytes, cut to what fits, up to a NUL among them.
abbrev pub shown_name : Option (List ℕ) → ℕ → ℕ → List ℕ
shown_name none namelen len = take (len - 1) none_name
shown_name (some name) namelen len = c_string (take (copied namelen len) name)

abbrev pub shown : Option ComponentName → ℕ → List ℕ
shown none len = take (len - 1) none_name
shown (some cnp) len = shown_name cnp.cn_nameptr cnp.cn_namelen len

abbrev pub IsReadableName : Option (List ℕ) → ℕ → ℕ → Type 0
IsReadableName none namelen len = Unit {0}
IsReadableName (some name) namelen len = copied namelen len ≤ length name

-- `cn_namelen` bytes of the name, or as many as fit, can be read.
abbrev pub IsReadable : Option ComponentName → ℕ → Type 0
IsReadable none len = Unit {0}
IsReadable (some cnp) len = IsReadableName cnp.cn_nameptr cnp.cn_namelen len

pointed_name-Named :
    (ptr : Option (List ℕ)) (namelen : ℕ) (buf : List ℕ) (len : ℕ)
    → 0 < len
    → len ≤ length buf
    → len < 2 ^ 64
    → IsReadableName ptr namelen len
    → Named buf (shown_name ptr namelen len) len (pointed_name ptr namelen buf len)
unfolding pointed_name
pointed_name-Named none namelen buf len p h w r =
    strlcpy-Named none_name buf len none_name-IsText p h
pointed_name-Named (some name) namelen buf len p h w r =
    let n : ℕ = copied namelen len in
    record {
      left = take n name ++ (0 ∷ drop (suc n) buf);
      written = copy_name_lem name buf namelen len p h w r;
      kept = omega (
        arith,
        length-append (take n name) (0 ∷ drop (suc n) buf),
        length-take n name,
        length-drop (suc n) buf,
      );
      prints = c_string-terminated (take n name) (drop (suc n) buf);
      short = omega (arith, length-c_string (take n name), length-take n name);
    }

-- `sebsd_cnp_name` writes inside a buffer of at least `len > 0` bytes, whatever the component's
-- length: the buffer keeps its length and prints the name, cut to `len - 1` bytes, or `<none>` for
-- a NULL component or name. The bytes to copy must be readable.
pub cnp_name-Named :
    (cnp : Option ComponentName) (buf : List ℕ) (len : ℕ)
    → 0 < len
    → len ≤ length buf
    → len < 2 ^ 64
    → IsReadable cnp len
    → Named buf (shown cnp len) len (cnp_name cnp buf len)
unfolding cnp_name
cnp_name-Named none buf len p h w r = strlcpy-Named none_name buf len none_name-IsText p h
cnp_name-Named (some cnp) buf len p h w r =
    pointed_name-Named cnp.cn_nameptr cnp.cn_namelen buf len p h w r
