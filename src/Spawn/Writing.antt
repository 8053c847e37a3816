-- ===== src/Spawn/Writing.antt =====
-- What the buffer of `sebsd_csflag_bits` holds after each use of the macro `CSFLAG_BIT`.
use sedarwin.Prelude.{
  ℕ, suc, ◌+◌, ◌-◌, ◌≤◌, ◌<◌, min, Bool, true, false, List, [], ◌∷◌, ◌++◌, Option, some, bit_and,
  ◌==◌, ◌≡◌, ◌∙◌, refl, sym, ap, subst, inl, inr, arith, length, take, drop, set, Bool-cases,
  dec_lt, append_assoc, append-nil, length-append, length-take, length-drop, take-all,
  take-append_of_le,
}
use sedarwin.Bytes.{store}
use sedarwin.Bytes.Laws.{
  IsText, IsText-take, Named, store_lem, set-append_at, set_zero-drop, c_string-terminated,
  c_string_text,
}
use sedarwin.Spawn.Letters.{letters, lead, following, spelled, following-nil}
use sedarwin.Spawn.{Cursor, put, put_comma, put_name, csflag_bit, csflag_each, csflag_finish}

module _ (base : List ℕ) (len : ℕ) (room : len ≤ length base) (some_room : 0 < len) where
  -- `text` has been put, of which the buffer holds what leaves room for the NUL.
  pub record Put (text : List ℕ) (s : Cursor) : Type 0 where
    pub holds : s.buf ≡ take (len - 1) text ++ drop s.p base
    pub place : s.p ≡ min (length text) (len - 1)
    pub budget : s.p + s.left ≡ len

  -- The step went well, and the buffer has `text`.
  abbrev Puts : List ℕ → Bool → Option Cursor → Type 0
  Puts text first o = (s : Cursor) × (o ≡ some s) × Put text s × (s.first ≡ first)

  -- A store at the end of what has been put.
  Put-store :
      (c : ℕ) (text : List ℕ) (s : Cursor)
      → Put text s
      → s.p < len
      → store s.buf s.p c ≡ some (take (len - 1) text ++ (c ∷ drop (suc s.p) base))
  Put-store c text s h l =
      let n : length (take (len - 1) text) ≡ s.p =
        omega (arith, h.place, length-take (len - 1) text) in
      store_lem s.buf s.p c (
        omega (
          arith,
          ap length h.holds,
          length-append (take (len - 1) text) (drop s.p base),
          length-drop s.p base,
        ))
      ∙ ap (λ b. some (set b s.p c)) h.holds
      ∙ ap some (set-append_at (take (len - 1) text) (drop s.p base) c n)
      ∙ ap (λ t. some (take (len - 1) text ++ t)) (set_zero-drop s.p base c (omega arith))

  put_fits :
      (c : ℕ) (text : List ℕ) (s : Cursor)
      → Put text s
      → 1 < s.left
      → Puts (text ++ (c ∷ [])) s.first (put c s)
  unfolding put
  put_fits c text s h l =
      let short : length text ≡ s.p = omega (arith, h.place) in
      let whole = take-all (len - 1) text (omega arith) in
      let whole' =
        take-all (len - 1) (text ++ (c ∷ [])) (omega (arith, length-append text (c ∷ []))) in
      let next : suc s.p ≡ s.p + 1 = omega arith in
      let stored = Put-store c text s h (omega arith) in
      let after : List ℕ = take (len - 1) text ++ (c ∷ drop (suc s.p) base) in
      (
        record s { buf = after; p = s.p + 1; left = s.left - 1 },
        ground (arith, stored),
        record {
          holds =
              ap (λ t. t ++ (c ∷ drop (suc s.p) base)) whole
              ∙ ap (λ k. text ++ (c ∷ drop k base)) next
              ∙ sym (append_assoc text (c ∷ []) (drop (s.p + 1) base))
              ∙ ap (λ t. t ++ drop (s.p + 1) base) (sym whole');
          place = omega (arith, length-append text (c ∷ []));
          budget = omega arith;
        },
        refl,
      )

  put_full :
      (c : ℕ) (text : List ℕ) (s : Cursor)
      → Put text s
      → s.left ≤ 1
      → Puts (text ++ (c ∷ [])) s.first (put c s)
  unfolding put
  put_full c text s h l = (
    s,
    ground arith,
    record {
      holds =
          h.holds
          ∙ ap (λ t. t ++ drop s.p base)
              (sym (take-append_of_le (len - 1) text (c ∷ []) (omega (arith, h.place, h.budget))));
      place = omega (arith, h.place, h.budget, length-append text (c ∷ []));
      budget = h.budget;
    },
    refl,
  )

  put-Puts :
      (c : ℕ) (text : List ℕ) (s : Cursor) → Put text s → Puts (text ++ (c ∷ [])) s.first (put c s)
  put-Puts c text s h = elim (dec_lt 1 s.left) [
    | yes l ↦ put_fits c text s h l
    | no l ↦ put_full c text s h (omega arith)
  ]

  put_name-Puts :
      (name : ℕ) (text : List ℕ) (s : Cursor)
      → Put text s
      → Puts (text ++ (name ∷ [])) false (put_name name s)
  unfolding put_name
  put_name-Puts name text s h =
      let (s', e, h', f) = put-Puts name text s h in
      (
        record s' { first = false },
        rw (e, put_name),
        record { holds = h'.holds; place = h'.place; budget = h'.budget },
        refl,
      )

  put_comma-Puts :
      (first : Bool) (text : List ℕ) (s : Cursor)
      → Put text s
      → Puts (text ++ lead first) s.first (put_comma first s)
  unfolding put_comma
  put_comma-Puts true text s h = (s, refl, rw (append-nil text) h, refl)
  put_comma-Puts false text s h = put-Puts b',' text s h

  csflag_bit_off :
      (flags mask name : ℕ) (s : Cursor)
      → (bit_and flags mask == 0) ≡ true
      → csflag_bit flags mask name s ≡ some s
  unfolding csflag_bit
  csflag_bit_off flags mask name s off = rw off

  csflag_bit-Puts :
      (flags mask name : ℕ) (text : List ℕ) (s : Cursor)
      → (bit_and flags mask == 0) ≡ false
      → Put text s
      → Puts ((text ++ lead s.first) ++ (name ∷ [])) false (csflag_bit flags mask name s)
  unfolding csflag_bit
  csflag_bit-Puts flags mask name text s on h =
      let (s1, e1, h1, f1) = put_comma-Puts s.first text s h in
      let (s2, e2, h2, f2) = put_name-Puts name (text ++ lead s.first) s1 h1 in
      (s2, rw (on, e1) e2, h2, f2)

  pub csflag_each-Puts :
      (flags : ℕ) (table : List (ℕ × ℕ)) (text : List ℕ) (s : Cursor)
      → Put text s
      → (s' : Cursor) × (csflag_each flags table s ≡ some s')
        × Put (text ++ following s.first (letters flags table)) s'
  unfolding csflag_each
  csflag_each-Puts flags [] text s h =
      (s, refl, subst (λ t. Put t s) (following-nil s.first text) h)
  csflag_each-Puts flags ((mask, name) ∷ rest) text s h =
      elim (Bool-cases (bit_and flags mask == 0)) [
        | inl off ↦
            let (s1, e1, h1) = csflag_each-Puts flags rest text s h in
            (s1, rw (csflag_bit_off flags mask name s off, csflag_each) e1, rw off h1)
        | inr on ↦
            let (s1, e1, h1, f1) = csflag_bit-Puts flags mask name text s on h in
            let (s2, e2, h2) =
              csflag_each-Puts flags rest ((text ++ lead s.first) ++ (name ∷ [])) s1 h1 in
            (
              s2,
              rw (e1, csflag_each) e2,
              rw on (subst (λ t. Put t s2) (spelled s.first text name (letters flags rest) f1) h2),
            )
      ]

  -- The last store, of the NUL behind what has been put.
  pub csflag_finish-Named :
      (text : List ℕ) (s : Cursor)
      → IsText text
      → Put text s
      → Named base (take (len - 1) text) len (csflag_finish (some s))
  unfolding csflag_finish
  csflag_finish-Named text s t h = record {
    left = take (len - 1) text ++ (0 ∷ drop (suc s.p) base);
    written = Put-store 0 text s h (omega (arith, h.place));
    kept = omega (
      arith,
      h.place,
      length-append (take (len - 1) text) (0 ∷ drop (suc s.p) base),
      length-take (len - 1) text,
      length-drop (suc s.p) base,
    );
    prints =
        c_string-terminated (take (len - 1) text) (drop (suc s.p) base)
        ∙ c_string_text (take (len - 1) text) (IsText-take (len - 1) text t);
    short = omega (arith, length-take (len - 1) text);
  }
