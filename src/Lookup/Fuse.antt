-- ===== src/Lookup/Fuse.antt =====
-- The lookup hook of kext/vnode.c called again and again, by threads that are not inside it.
use sedarwin.Prelude.{
  ℕ, zero, suc, ◌+◌, ◌^◌, ◌<◌, ◌≤◌, List, Option, none, some, ◌≡◌, ◌≢◌, ◌∙◌, refl, sym, ap, arith,
  ltb, if◌then◌else◌, dec_lt, lt→ltb, le→ltb, subst,
}
use sedarwin.Kernel.{Kernel, Call}
use sedarwin.Trace.{Flag, trace_name_max, ComponentName}
use sedarwin.Trace.Component.{IsReadable}
use sedarwin.Ops.{sebsd_vnode_check_lookup}
use sedarwin.Policy.{Kext}
use sedarwin.Lookup.Outside.{passed, vnode_check_lookup-Passed}
use sedarwin.Lookup.{vnode_check_lookup}
use sedarwin.Lookup.Fused.{Fused, Stepped, passed-Fused}

-- `n` calls of the hook, one after another, each made while its slot is not NULL.
pub data Dispatched : ℕ → Kext → Kext → Type 0 where
  finished : (s : Kext) → Dispatched zero s s
  called :
      (n : ℕ) (k : Kernel) (trace : Flag) (dvp dlabel : ℕ) (cnp : Option ComponentName)
      (calls : List Call) (s t u : Kext)
      → IsReadable cnp trace_name_max
      → k.current_thread ≢ 0
      → s.ops.mpo_vnode_check_lookup ≡ some sebsd_vnode_check_lookup
      → vnode_check_lookup k trace dvp dlabel cnp s ≡ some ((0, t), calls)
      → Dispatched n t u
      → Dispatched (suc n) s u

below_fuse :
    (fuse : ℕ) (s : Kext)
    → Fused fuse s
    → s.ops.mpo_vnode_check_lookup ≡ some sebsd_vnode_check_lookup
    → s.lookup_count < fuse
below_fuse fuse s v e = elim (dec_lt s.lookup_count fuse) [
  | yes below ↦ below
  | no past ↦
      let test = le→ltb s.lookup_count fuse (omega arith) in
      let empty : s.ops.mpo_vnode_check_lookup ≡ none = v.installed ∙ rw test refl in
      absurd (cc (e, empty))
]

outside :
    (k : Kernel) {fuse : ℕ} (s : Kext)
    → Fused fuse s
    → k.current_thread ≢ 0
    → s.lookup_owner ≢ k.current_thread
outside k s v t e = t (sym e ∙ v.idle)

-- The call of a fused state, whoever makes it.
step-Fused :
    (fuse : ℕ) (k : Kernel) (trace : Flag) (dvp dlabel : ℕ) (cnp : Option ComponentName)
    (calls : List Call) (s t : Kext)
    → fuse < 2 ^ 31
    → Fused fuse s
    → IsReadable cnp trace_name_max
    → k.current_thread ≢ 0
    → s.ops.mpo_vnode_check_lookup ≡ some sebsd_vnode_check_lookup
    → vnode_check_lookup k trace dvp dlabel cnp s ≡ some ((0, t), calls)
    → Stepped fuse s t
step-Fused fuse k trace dvp dlabel cnp calls s t small v readable other slot runs =
    let p = vnode_check_lookup-Passed k trace dvp dlabel cnp s readable (outside k s v other) in
    let same : passed k.current_thread s ≡ t =
      ap (λ o. elim o [ none ↦ s | some r ↦ r.0.1 ]) (sym p.returns ∙ runs) in
    subst (Stepped fuse s) same
      (passed-Fused k.current_thread fuse s small v (below_fuse fuse s v slot))

-- A write to an oid that the fuse does not depend on.
pub data Aside (s : Kext) : Kext → Type 0 where
  write_trace : (v : ℕ) → Aside s (record s { trace_enabled = v })
  write_unsafe : (v : ℕ) → Aside s (record s { unsafe_enabled = v })
  write_maxdepth : (v : ℕ) → Aside s (record s { lookup_maxdepth = v })
  write_recursed : (v : ℕ) → Aside s (record s { lookup_recursed = v })

Aside-Fused : (fuse : ℕ) {s t : Kext} → Aside s t → Fused fuse s → Fused fuse t
Aside-Fused fuse (Aside.write_trace v) d = record {
  idle = d.idle;
  level = d.level;
  limit = d.limit;
  within = d.within;
  installed = d.installed;
}
Aside-Fused fuse (Aside.write_unsafe v) d = record {
  idle = d.idle;
  level = d.level;
  limit = d.limit;
  within = d.within;
  installed = d.installed;
}
Aside-Fused fuse (Aside.write_maxdepth v) d = record {
  idle = d.idle;
  level = d.level;
  limit = d.limit;
  within = d.within;
  installed = d.installed;
}
Aside-Fused fuse (Aside.write_recursed v) d = record {
  idle = d.idle;
  level = d.level;
  limit = d.limit;
  within = d.within;
  installed = d.installed;
}

Aside-count : {s t : Kext} → Aside s t → t.lookup_count ≡ s.lookup_count
Aside-count (Aside.write_trace v) = refl
Aside-count (Aside.write_unsafe v) = refl
Aside-count (Aside.write_maxdepth v) = refl
Aside-count (Aside.write_recursed v) = refl

-- Stretches of calls that do not overlap, with such writes between them; `n` is the number of calls.
pub data Sequence : ℕ → Kext → Kext → Type 0 where
  finished : (s : Kext) → Sequence zero s s
  stretch : {m n : ℕ} {s t u : Kext} → Dispatched m s t → Sequence n t u → Sequence (m + n) s u
  aside : {n : ℕ} {s t u : Kext} → Aside s t → Sequence n t u → Sequence n s u

-- After `n` calls: `n` more are counted, and the state is a fused one.
abbrev After : ℕ → ℕ → Kext → Kext → Type 0
After fuse n s u = Fused fuse u × (u.lookup_count ≡ s.lookup_count + n)

Dispatched-After :
    (fuse n : ℕ) {s u : Kext} → fuse < 2 ^ 31 → Fused fuse s → Dispatched n s u → After fuse n s u
Dispatched-After fuse n small v (Dispatched.finished s) = (v, omega arith)
Dispatched-After fuse n small v
      (Dispatched.called m k trace dvp dlabel cnp calls s t u readable other slot runs rest) =
    let (w, counted) =
      step-Fused fuse k trace dvp dlabel cnp calls s t small v readable other slot runs in
    let (last, total) = Dispatched-After fuse m small w rest in (last, omega arith)

Sequence-After :
    (fuse n : ℕ) {s u : Kext} → fuse < 2 ^ 31 → Fused fuse s → Sequence n s u → After fuse n s u
Sequence-After fuse n small v (Sequence.finished s) = (v, omega arith)
Sequence-After fuse n small v (Sequence.stretch {m} {n = k} calls rest) =
    let (middle, counted) = Dispatched-After fuse m small v calls in
    let (last, total) = Sequence-After fuse k small middle rest in (last, omega arith)
Sequence-After fuse n small v (Sequence.aside write rest) =
    let (last, total) = Sequence-After fuse n small (Aside-Fused fuse write v) rest in
    (last, omega (arith, Aside-count write))

-- The fuse is a bound on calls of the hook that do not overlap, while neither the mask nor the fuse nor
-- the count is written: after `n` such calls of the installed hook, by any threads and with any
-- values written to the other oids between them, the count is higher by `n` and not above the fuse,
-- nobody is counted as inside, and the hook is installed just if the count is below the fuse. The fuse
-- is below 2 ^ 31, and at the start the hook is installed just if the count is below it, with
-- nobody inside.
pub lookup_fuse_bound :
    (fuse n : ℕ) {s u : Kext}
    → fuse < 2 ^ 31
    → Fused fuse s
    → Sequence n s u
    → (u.lookup_count ≡ s.lookup_count + n)
      × (u.lookup_count ≤ fuse)
      × (u.lookup_owner ≡ 0)
      × (u.lookup_depth ≡ 0)
      × (u.ops.mpo_vnode_check_lookup
          ≡ (if ltb u.lookup_count fuse then some sebsd_vnode_check_lookup else none))
lookup_fuse_bound fuse n small v sequence =
    let (last, total) = Sequence-After fuse n small v sequence in
    (total, last.within, last.idle, last.level, last.installed)

-- The fuse is reached: when `n` calls are left, a thread that looks up any readable component can
-- make them, one after another, each of them finds the hook installed, and after the last one the count
-- is the fuse and the slot is NULL. The fuse is below 2 ^ 31, and the state is as in the bound above.
pub lookup_fuse_reached :
    (fuse : ℕ) (k : Kernel) (trace : Flag) (dvp dlabel : ℕ) (cnp : Option ComponentName)
    → fuse < 2 ^ 31
    → k.current_thread ≢ 0
    → IsReadable cnp trace_name_max
    → (n : ℕ) (s : Kext) → Fused fuse s
    → s.lookup_count + n ≡ fuse
    → (u : Kext) × Dispatched n s u
      × (u.lookup_count ≡ fuse)
      × (u.ops.mpo_vnode_check_lookup ≡ none)
lookup_fuse_reached fuse k trace dvp dlabel cnp small other readable zero s v e =
    let full = le→ltb s.lookup_count fuse (omega arith) in
    (s, Dispatched.finished s, omega arith, v.installed ∙ rw full refl)
lookup_fuse_reached fuse k trace dvp dlabel cnp small other readable (suc n) s v e =
    let p = vnode_check_lookup-Passed k trace dvp dlabel cnp s readable (outside k s v other) in
    let armed = lt→ltb s.lookup_count fuse (omega arith) in
    let slot : s.ops.mpo_vnode_check_lookup ≡ some sebsd_vnode_check_lookup =
      v.installed ∙ rw armed refl in
    let (w, counted) = passed-Fused k.current_thread fuse s small v (omega arith) in
    let (u, rest, count, empty) =
      lookup_fuse_reached fuse k trace dvp dlabel cnp small other readable n
        (passed k.current_thread s) w (omega arith) in
    (
      u,
      Dispatched.called n k trace dvp dlabel cnp p.calls s (passed k.current_thread s) u readable
          other slot p.returns rest,
      count,
      empty,
    )
