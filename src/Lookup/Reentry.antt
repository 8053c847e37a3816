-- ===== src/Lookup/Reentry.antt =====
-- `sebsd_lookup_recursed` of kext/vnode.c is evidence of a re-entry.
use sedarwin.Prelude.{
  ℕ, Bool, true, false, List, [], ◌∷◌, ◌++◌, Option, none, some, ◌≡◌, ◌≢◌, ◌⊎◌, inl, inr, ◌∙◌, refl,
  sym, arith, ==_false, ℕ_discrete, subst,
}
use sedarwin.Policy.{Kext}
use sedarwin.Lookup.Steps.{
  Point, load_owner, store_recursed, store_owner, add_depth, load_maxdepth, store_maxdepth,
  add_count, load_trace, load_line, load_fuse, load_fuse_again, clear_slot, load_mask, store_mask,
  sub_depth, clear_owner, advance, Frame, stays, System, Moves, Reachable,
}
use sedarwin.Lookup.Frames.{any_at, any_at-append}
use sedarwin.Lookup.Inside.{present, present-append, Owned, Reachable-Owned}

-- A call that has seen its own thread as the owner, and has not yet said so.
abbrev about_to_tell : Point → Bool
about_to_tell store_recursed = true
about_to_tell _ = false

abbrev pending : List Frame → Bool
pending = any_at about_to_tell

-- A thread is at the start of a call while another call of its own is in the hook's body.
pub record Nested (a : System) : Type 0 where
  pub before : List Frame
  pub behind : List Frame
  pub thread : ℕ
  pub starts : a.frames ≡ before ++ (record { thread = thread; point = load_owner } ∷ behind)
  pub nested : present thread (before ++ behind) ≡ true

-- That was so in a state which the interleaving passed through.
abbrev pub WasNested : {s : Kext} {a : System} → Reachable s a → Type 0
WasNested Reachable.start = ⊥
WasNested (Reachable.moved {a} r m) = Nested a ⊎ WasNested r

-- The threads of the calls on the way; 0 is none.
AreThreads : List Frame → Type 0
AreThreads [] = Unit {0}
AreThreads (f ∷ fs) = (f.thread ≢ 0) × AreThreads fs

record Quiet (a : System) : Type 0 where
  unset : a.kext.lookup_recursed ≡ 0
  silent : pending a.frames ≡ false
  threads : AreThreads a.frames

AreThreads-self : (xs ys : List Frame) (f : Frame) → AreThreads (xs ++ (f ∷ ys)) → f.thread ≢ 0
unfolding AreThreads
AreThreads-self [] ys f t = t.0
AreThreads-self (x ∷ xs) ys f t = AreThreads-self xs ys f t.1

AreThreads-stays :
    (xs ys : List Frame) (f : Frame) (o : Option Point)
    → AreThreads (xs ++ (f ∷ ys))
    → AreThreads (xs ++ (stays f.thread o ++ ys))
unfolding AreThreads
AreThreads-stays [] ys f none t = t.1
AreThreads-stays [] ys f (some p) t = t
AreThreads-stays (x ∷ xs) ys f o t = (t.0, AreThreads-stays xs ys f o t.1)

module _ (s : Kext) (xs ys : List Frame) (self : ℕ) where
  abbrev at : Point → System
  at p = record { kext = s; frames = xs ++ (record { thread = self; point = p } ∷ ys) }

  abbrev next : Point → System
  next p = record {
    kext = (advance self p s).0;
    frames = xs ++ (stays self (advance self p s).1 ++ ys);
  }

  Quiet-next :
      (p : Point)
      → (advance self p s).0.lookup_recursed ≡ s.lookup_recursed
      → pending (stays self (advance self p s).1) ≡ false
      → Quiet (at p)
      → Quiet (next p)
  Quiet-next p same off q = record {
    unset = same ∙ q.unset;
    silent = ground (
      arith,
      any_at-append about_to_tell xs (stays self (advance self p s).1 ++ ys),
      any_at-append about_to_tell (stays self (advance self p s).1) ys,
      any_at-append about_to_tell xs (record { thread = self; point = p } ∷ ys),
      q.silent,
      off,
    );
    threads =
        AreThreads-stays xs ys (record { thread = self; point = p }) (advance self p s).1 q.threads;
  }

  not_pending : ¬ Quiet (at store_recursed)
  not_pending q = cc (q.silent, set)
    where
      set : pending (xs ++ (record { thread = self; point = store_recursed } ∷ ys)) ≡ true
      set = ground (
        arith,
        any_at-append about_to_tell xs (record { thread = self; point = store_recursed } ∷ ys),
      )

  -- Who sees its own thread there has another call inside.
  nested_call :
      Owned (at load_owner)
      → Quiet (at load_owner)
      → s.lookup_owner ≡ self
      → present self (xs ++ ys) ≡ true
  nested_call o q same = elim o.owner_inside [
    | inl free ↦ absurd (
        AreThreads-self xs ys (record { thread = self; point = load_owner }) q.threads
          (sym same ∙ free))
    | inr inside ↦
        let seen : present self (xs ++ (record { thread = self; point = load_owner } ∷ ys)) ≡ true =
          subst (λ t. present t (at load_owner).frames ≡ true) same inside in
        ground (
          arith,
          present-append self xs (record { thread = self; point = load_owner } ∷ ys),
          present-append self xs ys,
          seen,
        )
  ]

access_lem :
    (s : Kext) (xs ys : List Frame) (self : ℕ) (p : Point)
    → Owned (at s xs ys self p)
    → Quiet (at s xs ys self p)
    → Quiet (next s xs ys self p) ⊎ Nested (at s xs ys self p)
unfolding advance
access_lem s xs ys self load_owner o q = elim (ℕ_discrete s.lookup_owner self) [
  | yes same ↦ inr (record {
    before = xs;
    behind = ys;
    thread = self;
    starts = refl;
    nested = nested_call s xs ys self o q same;
  })
  | no other ↦
      inl (Quiet-next s xs ys self load_owner refl (rw (==_false s.lookup_owner self other) refl) q)
]
access_lem s xs ys self store_recursed o q = absurd (not_pending s xs ys self q)
access_lem s xs ys self store_owner o q = inl (Quiet-next s xs ys self store_owner refl refl q)
access_lem s xs ys self add_depth o q = inl (Quiet-next s xs ys self add_depth refl refl q)
access_lem s xs ys self (load_maxdepth d) o q =
    inl (Quiet-next s xs ys self (load_maxdepth d) refl (ground arith) q)
access_lem s xs ys self (store_maxdepth d) o q =
    inl (Quiet-next s xs ys self (store_maxdepth d) refl refl q)
access_lem s xs ys self add_count o q = inl (Quiet-next s xs ys self add_count refl refl q)
access_lem s xs ys self (load_trace n) o q =
    inl (Quiet-next s xs ys self (load_trace n) refl (ground arith) q)
access_lem s xs ys self (load_line n) o q =
    inl (Quiet-next s xs ys self (load_line n) refl (ground arith) q)
access_lem s xs ys self (load_fuse n) o q =
    inl (Quiet-next s xs ys self (load_fuse n) refl (ground arith) q)
access_lem s xs ys self (load_fuse_again n) o q =
    inl (Quiet-next s xs ys self (load_fuse_again n) refl (ground arith) q)
access_lem s xs ys self (clear_slot b) o q =
    inl (Quiet-next s xs ys self (clear_slot b) refl refl q)
access_lem s xs ys self (load_mask b) o q = inl (Quiet-next s xs ys self (load_mask b) refl refl q)
access_lem s xs ys self (store_mask true mask) o q =
    inl (Quiet-next s xs ys self (store_mask true mask) refl refl q)
access_lem s xs ys self (store_mask false mask) o q =
    inl (Quiet-next s xs ys self (store_mask false mask) refl refl q)
access_lem s xs ys self sub_depth o q = inl (Quiet-next s xs ys self sub_depth refl refl q)
access_lem s xs ys self clear_owner o q = inl (Quiet-next s xs ys self clear_owner refl refl q)

moves_lem : {a b : System} → Moves a b → Owned a → Quiet a → Quiet b ⊎ Nested a
unfolding AreThreads
moves_lem (Moves.enter s fs self other) o q =
    inl (record { unset = q.unset; silent = q.silent; threads = (other, q.threads) })
moves_lem (Moves.access s xs ys self p) o q = access_lem s xs ys self p o q

reachable_lem :
    {s : Kext} {a : System}
    → s.lookup_owner ≡ 0
    → s.lookup_depth ≡ 0
    → s.lookup_recursed ≡ 0
    → (r : Reachable s a) → Quiet a ⊎ WasNested r
unfolding AreThreads
reachable_lem idle level unset Reachable.start =
    inl (record { unset = unset; silent = refl; threads = tt })
reachable_lem idle level unset (Reachable.moved r m) = elim (reachable_lem idle level unset r) [
  | inl q ↦ elim (moves_lem m (Reachable-Owned idle level r) q) [
    | inl still ↦ inl still
    | inr e ↦ inr (inl e)
  ]
  | inr e ↦ inr (inr e)
]

-- A set `recursed` is evidence: from a state in which nobody is inside and the flag is clear, it can
-- only be set if, in a state that the interleaving passed through, a thread starts the hook while
-- another call of the same thread stands between the hook's two stores of the owner. This holds in
-- every interleaving, with any number of threads and of calls.
pub recursed_evidence :
    {s : Kext} {a : System}
    → s.lookup_owner ≡ 0
    → s.lookup_depth ≡ 0
    → s.lookup_recursed ≡ 0
    → (r : Reachable s a) → a.kext.lookup_recursed ≢ 0
    → WasNested r
recursed_evidence idle level unset r set = elim (reachable_lem idle level unset r) [
  | inl q ↦ absurd (set q.unset)
  | inr e ↦ e
]
