-- ===== src/Spawn/Letters.antt =====
-- The text that `sebsd_csflag_bits` of kext/spawn.c owes to a flag word.
use sedarwin.Prelude.{
  ℕ, Bool, true, false, List, [], ◌∷◌, ◌++◌, ◌≡◌, ◌∙◌, ap, sym, bit_and, ◌==◌, if◌then◌else◌,
  append-nil, append_assoc, list_laws,
}

-- The names of the flags that are set.
abbrev pub letters : ℕ → List (ℕ × ℕ) → List ℕ
letters flags [] = []
letters flags ((mask, name) ∷ rest) =
    if bit_and flags mask == 0 then letters flags rest else name ∷ letters flags rest

-- Each name with a comma before it.
abbrev pub separated : List ℕ → List ℕ
separated [] = []
separated (x ∷ xs) = b',' ∷ x ∷ separated xs

-- Names with commas between them.
abbrev pub joined : List ℕ → List ℕ
joined [] = []
joined (x ∷ xs) = x ∷ separated xs

-- What stands before a name.
abbrev pub lead : Bool → List ℕ
lead true = []
lead false = b',' ∷ []

-- What is written for the names that follow.
abbrev pub following : Bool → List ℕ → List ℕ
following true names = joined names
following false names = separated names

following-cons :
    (first : Bool) (text : List ℕ) (name : ℕ) (names : List ℕ)
    → ((text ++ lead first) ++ (name ∷ [])) ++ separated names
      ≡ text ++ following first (name ∷ names)
following-cons true text name names = simp list_laws
following-cons false text name names = simp append_assoc

pub spelled :
    (first : Bool) (text : List ℕ) (name : ℕ) (names : List ℕ) {later : Bool}
    → later ≡ false
    → ((text ++ lead first) ++ (name ∷ [])) ++ following later names
      ≡ text ++ following first (name ∷ names)
spelled first text name names e =
    ap (λ b. ((text ++ lead first) ++ (name ∷ [])) ++ following b names) e
    ∙ following-cons first text name names

pub following-nil : (first : Bool) (text : List ℕ) → text ≡ text ++ following first []
following-nil true text = sym (append-nil text)
following-nil false text = sym (append-nil text)
