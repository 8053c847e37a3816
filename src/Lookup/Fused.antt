-- ===== src/Lookup/Fused.antt =====
-- The count and the fuse of the lookup hook of kext/vnode.c across one call.
use sedarwin.Prelude.{
  ℕ, suc, ◌^◌, ◌<◌, ◌≤◌, true, false, none, some, ◌≡◌, ◌∙◌, refl, sym, arith, ltb, leb, ◌&&◌,
  if◌then◌else◌, dec_lt, lt→ltb, le→ltb, subst,
}
use sedarwin.Ops.{sebsd_vnode_check_lookup}
use sedarwin.Policy.{Kext, blow_lookup_fuse}
use sedarwin.Lookup.Outside.{passed}
use sedarwin.Lookup.{increment, decrement, lookup_enter, lookup_burn, lookup_leave, burned}

-- Between two calls: no thread is inside, and the hook is installed just as long as the count is
-- below the fuse.
pub record Fused (fuse : ℕ) (s : Kext) : Type 0 where
  pub idle : s.lookup_owner ≡ 0
  pub level : s.lookup_depth ≡ 0
  pub limit : s.lookup_fuse ≡ fuse
  pub within : s.lookup_count ≤ fuse
  pub installed :
      s.ops.mpo_vnode_check_lookup
      ≡ (if ltb s.lookup_count fuse then some sebsd_vnode_check_lookup else none)

leb-false : (a b : ℕ) → b < a → leb a b ≡ false
leb-false a b h = ground arith

leb-true : (a b : ℕ) → a ≤ b → leb a b ≡ true
leb-true a b h = ground arith

depth_back : (d : ℕ) → d ≡ 0 → decrement (increment d) ≡ 0
depth_back d e = rw e refl

burned_lem :
    (s : Kext) {fuse : ℕ}
    → s.lookup_fuse ≡ fuse
    → fuse < 2 ^ 31
    → s.lookup_count < fuse
    → burned s.lookup_fuse (increment s.lookup_count) ≡ leb fuse (suc s.lookup_count)
burned_lem s {fuse} e small below =
    let next : increment s.lookup_count ≡ suc s.lookup_count = omega arith in
    let armed : (ltb 0 fuse && ltb fuse (2 ^ 31)) ≡ true = ground arith in rw (e, next, armed) refl

passed_on :
    (self : ℕ) (s : Kext)
    → burned s.lookup_fuse (increment s.lookup_count) ≡ false
    → passed self s ≡ lookup_leave (lookup_enter self s)
unfolding lookup_burn lookup_enter
passed_on self s e = rw e refl

passed_out :
    (self : ℕ) (s : Kext)
    → burned s.lookup_fuse (increment s.lookup_count) ≡ true
    → passed self s ≡ lookup_leave (blow_lookup_fuse (lookup_enter self s))
unfolding lookup_burn lookup_enter
passed_out self s e = rw e refl

abbrev pub Stepped : ℕ → Kext → Kext → Type 0
Stepped fuse s t = Fused fuse t × (t.lookup_count ≡ suc s.lookup_count)

on-Fused :
    (self fuse : ℕ) (s : Kext)
    → fuse < 2 ^ 31
    → Fused fuse s
    → suc s.lookup_count < fuse
    → Stepped fuse s (lookup_leave (lookup_enter self s))
unfolding lookup_leave lookup_enter
on-Fused self fuse s small v more =
    let next : increment s.lookup_count ≡ suc s.lookup_count = omega arith in
    let was = lt→ltb s.lookup_count fuse (omega arith) in
    (
      record {
        idle = refl;
        level = depth_back s.lookup_depth v.level;
        limit = v.limit;
        within = omega arith;
        installed = rw (next, lt→ltb (suc s.lookup_count) fuse more) (v.installed ∙ rw was refl);
      },
      next,
    )

out-Fused :
    (self fuse : ℕ) (s : Kext)
    → fuse < 2 ^ 31
    → Fused fuse s
    → suc s.lookup_count ≡ fuse
    → Stepped fuse s (lookup_leave (blow_lookup_fuse (lookup_enter self s)))
unfolding lookup_leave lookup_enter blow_lookup_fuse
out-Fused self fuse s small v last =
    let next : increment s.lookup_count ≡ suc s.lookup_count = omega arith in
    (
      record {
        idle = refl;
        level = depth_back s.lookup_depth v.level;
        limit = v.limit;
        within = omega arith;
        installed = rw (next, le→ltb (suc s.lookup_count) fuse (omega arith)) refl;
      },
      next,
    )

pub passed-Fused :
    (self fuse : ℕ) (s : Kext)
    → fuse < 2 ^ 31
    → Fused fuse s
    → s.lookup_count < fuse
    → Stepped fuse s (passed self s)
passed-Fused self fuse s small v below =
    let test = burned_lem s v.limit small below in
    elim (dec_lt (suc s.lookup_count) fuse) [
      | yes more ↦
          let kept = test ∙ leb-false fuse (suc s.lookup_count) more in
          subst (Stepped fuse s) (sym (passed_on self s kept)) (on-Fused self fuse s small v more)
      | no last ↦
          let gone = test ∙ leb-true fuse (suc s.lookup_count) (omega arith) in
          subst (Stepped fuse s) (sym (passed_out self s gone))
            (out-Fused self fuse s small v (omega arith))
    ]
