-- ===== src/Lookup/Inside.antt =====
-- Who is inside the lookup hook of kext/vnode.c, in every interleaving of its calls.
use sedarwin.Prelude.{
  ℕ, ◌+◌, ◌%◌, ◌^◌, Bool, true, false, List, [], ◌∷◌, ◌++◌, ◌≡◌, ◌⊎◌, inl, inr, ◌∙◌, refl, arith,
  not, ◌&&◌, ◌||◌, ltb, leb, ◌==◌, if◌then◌else◌, Bool-cases,
}
use sedarwin.Policy.{Kext}
use sedarwin.Lookup.{positive}
use sedarwin.Lookup.Steps.{
  Point, load_owner, store_recursed, store_owner, add_depth, load_maxdepth, store_maxdepth,
  add_count, load_trace, load_line, load_fuse, load_fuse_again, clear_slot, load_mask, store_mask,
  sub_depth, clear_owner, advance, Frame, stays, System, Moves, Reachable,
}
use sedarwin.Lookup.Frames.{total_at, total_at-append}

-- Between the two stores of the owner.
abbrev pub in_body : Point → Bool
in_body load_owner = false
in_body store_recursed = false
in_body store_owner = false
in_body add_depth = true
in_body (load_maxdepth d) = true
in_body (store_maxdepth d) = true
in_body add_count = true
in_body (load_trace n) = true
in_body (load_line n) = true
in_body (load_fuse n) = true
in_body (load_fuse_again n) = true
in_body (clear_slot reentered) = not reentered
in_body (load_mask reentered) = not reentered
in_body (store_mask reentered mask) = not reentered
in_body sub_depth = true
in_body clear_owner = true

-- Between the two updates of the depth: 1, else 0.
abbrev pub counted : Point → ℕ
counted load_owner = 0
counted store_recursed = 0
counted store_owner = 0
counted add_depth = 0
counted (load_maxdepth d) = 1
counted (store_maxdepth d) = 1
counted add_count = 1
counted (load_trace n) = 1
counted (load_line n) = 1
counted (load_fuse n) = 1
counted (load_fuse_again n) = 1
counted (clear_slot reentered) = if reentered then 0 else 1
counted (load_mask reentered) = if reentered then 0 else 1
counted (store_mask reentered mask) = if reentered then 0 else 1
counted sub_depth = 1
counted clear_owner = 0

-- A thread has a call in the hook's body.
abbrev pub present : ℕ → List Frame → Bool
present t [] = false
present t (f ∷ fs) = ((f.thread == t) && in_body f.point) || present t fs

-- How many calls are counted in the depth.
abbrev pub occupied : List Frame → ℕ
occupied = total_at counted

pub present-append :
    (t : ℕ) (fs gs : List Frame) → present t (fs ++ gs) ≡ (present t fs || present t gs)
present-append t [] gs = refl
present-append t (f ∷ fs) gs = ground (arith, present-append t fs gs)

-- The owner is inside, and the depth counts the calls inside.
pub record Owned (a : System) : Type 0 where
  pub owner_inside : (a.kext.lookup_owner ≡ 0) ⊎ (present a.kext.lookup_owner a.frames ≡ true)
  pub depth_counts : a.kext.lookup_depth ≡ occupied a.frames % 2 ^ 32

-- One access of a call among others.
record Kept (self : ℕ) (p : Point) (s : Kext) : Type 0 where
  owner_kept :
      ((advance self p s).0.lookup_owner ≡ 0)
      ⊎ (((advance self p s).0.lookup_owner ≡ self)
          × (present self (stays self (advance self p s).1) ≡ true))
      ⊎ (((advance self p s).0.lookup_owner ≡ s.lookup_owner)
          × ((t : ℕ)
              → present t (record { thread = self; point = p } ∷ []) ≡ true
              → present t (stays self (advance self p s).1) ≡ true))
  depth_kept :
      (n : ℕ)
      → s.lookup_depth ≡ (counted p + n) % 2 ^ 32
      → (advance self p s).0.lookup_depth
        ≡ (occupied (stays self (advance self p s).1) + n) % 2 ^ 32

access-Kept : (self : ℕ) (p : Point) (s : Kext) → Kept self p s
unfolding advance
access-Kept self load_owner s = elim (Bool-cases (s.lookup_owner == self)) [
  | inl same ↦ record {
    owner_kept = inr (inr (refl, λ t h. ground arith));
    depth_kept = λ n h. rw same h;
  }
  | inr other ↦ record {
    owner_kept = inr (inr (refl, λ t h. ground arith));
    depth_kept = λ n h. rw other h;
  }
]
access-Kept self store_recursed s = record {
  owner_kept = inr (inr (refl, λ t h. ground arith));
  depth_kept = λ n h. h;
}
access-Kept self store_owner s = record {
  owner_kept = inr (inl (refl, ground arith));
  depth_kept = λ n h. h;
}
access-Kept self add_depth s = record {
  owner_kept = inr (inr (refl, λ t h. h));
  depth_kept = λ n h. omega arith;
}
access-Kept self (load_maxdepth d) s = elim (Bool-cases (ltb s.lookup_maxdepth d)) [
  | inl more ↦ record {
    owner_kept = inr (inr (refl, λ t h. rw more h));
    depth_kept = λ n h. rw more h;
  }
  | inr less ↦ record {
    owner_kept = inr (inr (refl, λ t h. rw less h));
    depth_kept = λ n h. rw less h;
  }
]
access-Kept self (store_maxdepth d) s = record {
  owner_kept = inr (inr (refl, λ t h. h));
  depth_kept = λ n h. h;
}
access-Kept self add_count s = record {
  owner_kept = inr (inr (refl, λ t h. h));
  depth_kept = λ n h. h;
}
access-Kept self (load_trace m) s = elim (Bool-cases (s.trace_enabled == 0)) [
  | inl off ↦ record {
    owner_kept = inr (inr (refl, λ t h. rw off h));
    depth_kept = λ n h. rw off h;
  }
  | inr on ↦ record { owner_kept = inr (inr (refl, λ t h. rw on h)); depth_kept = λ n h. rw on h }
]
access-Kept self (load_line m) s = record {
  owner_kept = inr (inr (refl, λ t h. h));
  depth_kept = λ n h. h;
}
access-Kept self (load_fuse m) s = elim (Bool-cases (positive s.lookup_fuse)) [
  | inl armed ↦ record {
    owner_kept = inr (inr (refl, λ t h. rw armed h));
    depth_kept = λ n h. rw armed h;
  }
  | inr off ↦ record {
    owner_kept = inr (inr (refl, λ t h. rw off h));
    depth_kept = λ n h. rw off h;
  }
]
access-Kept self (load_fuse_again m) s = elim (Bool-cases (leb s.lookup_fuse m)) [
  | inl out ↦ record {
    owner_kept = inr (inr (refl, λ t h. rw out h));
    depth_kept = λ n h. rw out h;
  }
  | inr on ↦ record { owner_kept = inr (inr (refl, λ t h. rw on h)); depth_kept = λ n h. rw on h }
]
access-Kept self (clear_slot true) s = record {
  owner_kept = inr (inr (refl, λ t h. h));
  depth_kept = λ n h. h;
}
access-Kept self (clear_slot false) s = record {
  owner_kept = inr (inr (refl, λ t h. h));
  depth_kept = λ n h. h;
}
access-Kept self (load_mask true) s = record {
  owner_kept = inr (inr (refl, λ t h. h));
  depth_kept = λ n h. h;
}
access-Kept self (load_mask false) s = record {
  owner_kept = inr (inr (refl, λ t h. h));
  depth_kept = λ n h. h;
}
access-Kept self (store_mask true mask) s = record {
  owner_kept = inr (inr (refl, λ t h. ground arith));
  depth_kept = λ n h. h;
}
access-Kept self (store_mask false mask) s = record {
  owner_kept = inr (inr (refl, λ t h. h));
  depth_kept = λ n h. h;
}
access-Kept self sub_depth s = record {
  owner_kept = inr (inr (refl, λ t h. h));
  depth_kept = λ n h. omega arith;
}
access-Kept self clear_owner s = record { owner_kept = inl refl; depth_kept = λ n h. h }

present_swap :
    (t : ℕ) (xs : List Frame) (f : Frame) (gs ys : List Frame)
    → (present t (f ∷ []) ≡ true → present t gs ≡ true)
    → present t (xs ++ (f ∷ ys)) ≡ true
    → present t (xs ++ (gs ++ ys)) ≡ true
present_swap t xs f gs ys kept h = ground (
  arith,
  present-append t xs (f ∷ ys),
  present-append t xs (gs ++ ys),
  present-append t gs ys,
  kept,
)

present_middle :
    (t : ℕ) (xs gs ys : List Frame) → present t gs ≡ true → present t (xs ++ (gs ++ ys)) ≡ true
present_middle t xs gs ys h = ground (arith, present-append t xs (gs ++ ys), present-append t gs ys)

occupied_middle :
    (xs gs ys : List Frame)
    → occupied (xs ++ (gs ++ ys)) ≡ occupied gs + (occupied xs + occupied ys)
occupied_middle xs gs ys =
    omega (arith, total_at-append counted xs (gs ++ ys), total_at-append counted gs ys)

Moves-Owned : {a b : System} → Moves a b → Owned a → Owned b
Moves-Owned (Moves.enter s fs self other) o = record {
  owner_inside = elim o.owner_inside [ inl z ↦ inl z | inr i ↦ inr (ground arith) ];
  depth_counts = omega (arith, o.depth_counts);
}
Moves-Owned (Moves.access s xs ys self p) o =
    let kept = access-Kept self p s in
    let f : Frame = record { thread = self; point = p } in
    let gs : List Frame = stays self (advance self p s).1 in
    let was : s.lookup_depth ≡ (counted p + (occupied xs + occupied ys)) % 2 ^ 32 =
      omega (arith, o.depth_counts, occupied_middle xs (f ∷ []) ys) in
    record {
      owner_inside = elim kept.owner_kept [
        | inl gone ↦ inl gone
        | inr (inl (mine, here)) ↦ inr (rw mine (present_middle self xs gs ys here))
        | inr (inr (same, still)) ↦ elim o.owner_inside [
          | inl z ↦ inl (same ∙ z)
          | inr i ↦ inr (rw same (present_swap s.lookup_owner xs f gs ys (still s.lookup_owner) i))
        ]
      ];
      depth_counts =
          rw (occupied_middle xs gs ys) (kept.depth_kept (occupied xs + occupied ys) was);
    }

-- In every interleaving, from a state in which nobody is inside: the owner is 0 or a thread that
-- stands between the hook's two stores of the owner, and the depth is the number of calls between
-- the hook's two updates of it, modulo 2 ^ 32.
pub Reachable-Owned :
    {s : Kext} {a : System} → s.lookup_owner ≡ 0 → s.lookup_depth ≡ 0 → Reachable s a → Owned a
Reachable-Owned idle level Reachable.start = record {
  owner_inside = inl idle;
  depth_counts = level;
}
Reachable-Owned idle level (Reachable.moved r m) = Moves-Owned m (Reachable-Owned idle level r)
