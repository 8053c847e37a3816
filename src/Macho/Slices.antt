-- ===== src/Macho/Slices.antt =====
-- The loop over the slices of a fat file, in kext/MachO.c.
use native.Mathlib.Nat.{mul-suc}
use sedarwin.Prelude.{
  is_among, ℕ, zero, suc, ◌+◌, ◌*◌, ◌≤◌, ◌<◌, true, false, List, Option, none, some, ◌≡◌, ◌≢◌, ◌∙◌,
  ap, refl, arith, bit_and, length, ==_iff, ==_false, ℕ_discrete,
}
use sedarwin.Mask.{complement}
use sedarwin.Macho.{Loader, MachoInfo, load32, slices}
use sedarwin.Macho.Loads.{Layout, load32-some}

module _ (l : Loader) (image : List ℕ) where
  open l use {
    sizeof_fat_header, sizeof_fat_arch, fa_cputype, fa_cpusubtype, cpu_type_arm64, cpu_subtype_mask,
    ntohl,
  }

  -- Where the slice's entry starts.
  abbrev pub entry : ℕ → ℕ
  entry i = sizeof_fat_header + sizeof_fat_arch * i

  -- `Picked n i sub`: among `n` entries from the `i`-th on, `sub` is the subtype of the first whose
  -- type is arm64.
  pub data Picked : (n i : ℕ) → Option ℕ → Type 0 where
    nowhere : (i : ℕ) → Picked zero i none
    later :
        (n i cputype : ℕ) (sub : Option ℕ)
        → load32 image (entry i + fa_cputype) ≡ some cputype
        → cputype ≢ cpu_type_arm64
        → Picked n (suc i) sub
        → Picked (suc n) i sub
    here :
        (n i cpusubtype : ℕ)
        → load32 image (entry i + fa_cputype) ≡ some cpu_type_arm64
        → load32 image (entry i + fa_cpusubtype) ≡ some cpusubtype
        → Picked (suc n) i (some cpusubtype)

  -- What the choice writes.
  abbrev pub chosen : MachoInfo → Option ℕ → MachoInfo
  chosen info none = info
  chosen info (some cpusubtype) = record {
    m_cputype = cpu_type_arm64;
    m_cpusubtype = bit_and cpusubtype (complement cpu_subtype_mask);
    m_ncmds = info.m_ncmds;
    m_fat = info.m_fat;
    m_codesign = info.m_codesign;
  }

  pub record Searched (len n i : ℕ) (info : MachoInfo) : Type 0 where
    pub sub : Option ℕ
    pub picked : Picked n i sub
    pub runs : slices l image len n i info ≡ some (chosen info sub)

  pub slices-Picked :
      Layout l
      → (len n i : ℕ) (info : MachoInfo) → entry i + sizeof_fat_arch * n ≤ length image
      → Searched len n i info
  unfolding slices
  slices-Picked y len zero i info h = record { sub = none; picked = Picked.nowhere i; runs = refl }
  slices-Picked y len (suc n) i info h =
      let grown = mul-suc sizeof_fat_arch n in
      let moved = mul-suc sizeof_fat_arch i in
      let (cputype, e) =
        load32-some image (entry i + fa_cputype) (omega (arith, grown, h, y.slice_type_in)) in
      let (cpusubtype, f) =
        load32-some image (entry i + fa_cpusubtype) (omega (arith, grown, h, y.slice_subtype_in)) in
      elim (ℕ_discrete cputype cpu_type_arm64) [
        | yes same ↦ record {
          sub = some cpusubtype;
          picked = Picked.here n i cpusubtype (e ∙ ap some same) f;
          runs = rw (e, (==_iff cputype cpu_type_arm64).1 same, f) (rw same refl);
        }
        | no other ↦
            let rest = slices-Picked y len n (suc i) info (omega (arith, grown, moved, h)) in
            record {
              sub = rest.sub;
              picked = Picked.later n i cputype rest.sub e other rest.picked;
              runs = rw (e, ==_false cputype cpu_type_arm64 other) rest.runs;
            }
      ]

  -- The types of the `narch` entries stand in network order, as <mach-o/fat.h> has them, and are among
  -- `types`.
  abbrev pub AreNetworkOrder : List ℕ → ℕ → Type 0
  AreNetworkOrder types narch =
      (i cputype : ℕ)
      → i < narch
      → load32 image (entry i + fa_cputype) ≡ some cputype
      → is_among (ntohl cputype) types ≡ true

  pub Picked-none :
      (types : List ℕ) (narch : ℕ)
      → is_among (ntohl cpu_type_arm64) types ≡ false
      → AreNetworkOrder types narch
      → {n i : ℕ} {sub : Option ℕ} → i + n ≤ narch
      → Picked n i sub
      → sub ≡ none
  Picked-none types narch d b h (Picked.nowhere i) = refl
  Picked-none types narch d b h (Picked.later n i cputype sub e o rest) =
      Picked-none types narch d b (omega arith) rest
  Picked-none types narch d b h (Picked.here n i cpusubtype e f) =
      absurd (cc (d, b i cpu_type_arm64 (omega arith) e))
