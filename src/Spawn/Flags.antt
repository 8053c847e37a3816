-- ===== src/Spawn/Flags.antt =====
-- `sebsd_csflag_bits` stays inside its buffer, and renders the flags that are set.
use sedarwin.Prelude.{
  ℕ, ◌-◌, ◌≤◌, ◌<◌, true, List, [], ◌∷◌, ◌++◌, some, ◌≡◌, ◌≢◌, ◌∙◌, sym, ap, arith, length, take,
  set, length-set, take-nil,
}
use sedarwin.Bytes.{store}
use sedarwin.Bytes.Laws.{IsText, Named, store_lem}
use sedarwin.Kernel.{Kernel}
use sedarwin.Spawn.{csflag_render, Cursor, csflag_each, csflag_table, csflag_finish, csflag_bits}
use sedarwin.Spawn.Letters.{letters, separated, joined}
use sedarwin.Spawn.Writing.{csflag_each-Puts, csflag_finish-Named}

-- The names of the table are not NUL.
abbrev AreNames : List (ℕ × ℕ) → Type 0
AreNames [] = Unit
AreNames ((mask, name) ∷ rest) = (name ≢ 0) × AreNames rest

letters-IsText : (flags : ℕ) (table : List (ℕ × ℕ)) → AreNames table → IsText (letters flags table)
letters-IsText flags [] t = tt
letters-IsText flags ((mask, name) ∷ rest) t = ground (arith, letters-IsText flags rest t.1, t.0)

separated-IsText : (names : List ℕ) → IsText names → IsText (separated names)
separated-IsText [] t = tt
separated-IsText (x ∷ xs) t = ((λ e. omega arith), (t.0, separated-IsText xs t.1))

joined-IsText : (names : List ℕ) → IsText names → IsText (joined names)
joined-IsText [] t = tt
joined-IsText (x ∷ xs) t = (t.0, separated-IsText xs t.1)

csflag_render_runs :
    (flags : ℕ) (table : List (ℕ × ℕ)) (buf : List ℕ) (len : ℕ) {cleared : List ℕ} (s : Cursor)
    → store buf 0 0 ≡ some cleared
    → csflag_each flags table (record { buf = cleared; p = 0; left = len; first = true }) ≡ some s
    → csflag_render flags table buf len ≡ csflag_finish (some s)
unfolding csflag_render
csflag_render_runs flags table buf len s e1 e2 = rw (e1, csflag_render) (ap csflag_finish e2)

csflag_render-Named :
    (flags : ℕ) (table : List (ℕ × ℕ)) (buf : List ℕ) (len : ℕ)
    → AreNames table
    → 0 < len
    → len ≤ length buf
    → Named buf
        (take (len - 1) (joined (letters flags table)))
        len
        (csflag_render flags table buf len)
csflag_render-Named flags table buf len names p h =
    let base : List ℕ = set buf 0 0 in
    let same : length base ≡ length buf = length-set buf 0 0 in
    let room : len ≤ length base = omega arith in
    let start : Cursor = record { buf = base; p = 0; left = len; first = true } in
    let (s, e, put_all) = csflag_each-Puts base len room p flags table [] start (record {
      holds = ap (λ t. t ++ base) (sym (take-nil (len - 1)));
      place = omega arith;
      budget = omega arith;
    }) in
    let text = joined-IsText (letters flags table) (letters-IsText flags table names) in
    let named = csflag_finish-Named base len room p (joined (letters flags table)) s text put_all in
    record {
      left = named.left;
      written =
          csflag_render_runs flags table buf len s (store_lem buf 0 0 (omega arith)) e
          ∙ named.written;
      kept = named.kept ∙ same;
      prints = named.prints;
      short = named.short;
    }

-- `sebsd_csflag_bits` writes inside a buffer of at least `len > 0` bytes: the buffer keeps its
-- length and prints the names of the flags that are set, in the macro's order, with commas between
-- them, cut to `len - 1` bytes. This holds for every value of the ten masks.
pub csflag_bits-Named :
    (k : Kernel) (flags : ℕ) (buf : List ℕ) (len : ℕ)
    → 0 < len
    → len ≤ length buf
    → Named buf
        (take (len - 1) (joined (letters flags (csflag_table k))))
        len
        (csflag_bits k flags buf len)
unfolding csflag_bits
csflag_bits-Named k flags buf len p h =
    csflag_render-Named flags (csflag_table k) buf len (ground arith) p h
