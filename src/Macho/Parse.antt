-- ===== src/Macho/Parse.antt =====
-- `sebsd_macho_info` of kext/MachO.c against a description of what it is to report.
use native.Mathlib.Nat.{mul_comm, mul-zero}
use sedarwin.Prelude.{
  ℕ, ◌+◌, ◌*◌, ◌≤◌, true, false, List, Option, some, ◌≡◌, ◌≢◌, ◌⊎◌, inl, inr, not, ◌&&◌, ◌||◌, refl,
  arith, ◌==◌, length, ℕ_discrete, dec_lt, lt→ltb, le→ltb,
}
use sedarwin.Macho.{
  Loader, MachoInfo, macho_thin, macho_fat, dispatch, macho_info, parsed, failed, reset,
}
use sedarwin.Macho.Loads.{Layout, load32-some, signed, walk-Chain}
use sedarwin.Macho.Slices.{chosen, slices-Picked}
use sedarwin.Macho.Report.{fat_info, Thin, Fat, Reported}

-- How the code tests a magic number against two.
data Tested (m a b : ℕ) : Type 0 where
  either :
      (m ≡ a) ⊎ (m ≡ b)
      → (not (m == a) && not (m == b)) ≡ false
      → ((m == a) || (m == b)) ≡ true
      → Tested m a b
  neither :
      m ≢ a
      → m ≢ b
      → (not (m == a) && not (m == b)) ≡ true
      → ((m == a) || (m == b)) ≡ false
      → Tested m a b

tested : (m a b : ℕ) → Tested m a b
tested m a b = elim (ℕ_discrete m a) [
  | yes p ↦ Tested.either (inl p) (ground arith) (ground arith)
  | no p ↦ elim (ℕ_discrete m b) [
    | yes q ↦ Tested.either (inr q) (ground arith) (ground arith)
    | no q ↦ Tested.neither p q (ground arith) (ground arith)
  ]
]

module _ (l : Loader) (image : List ℕ) (len : ℕ) where
  open l use {
    mh_magic_64, mh_cigam_64, fat_magic, fat_cigam, sizeof_mach_header_64, mh_magic, mh_cputype,
    mh_cpusubtype, mh_ncmds, sizeof_fat_header, fh_magic, fh_nfat_arch, sizeof_fat_arch, ntohl,
  }

  record Ran (P : ℕ → MachoInfo → Type 0) (o : Option (ℕ × MachoInfo)) : Type 0 where
    status : ℕ
    info : MachoInfo
    runs : o ≡ some (status, info)
    meets : P status info

  Thin-Ran : Layout l → len ≤ length image → Ran (Thin l image len) (macho_thin l image len (reset))
  unfolding macho_thin
  Thin-Ran y h = elim (dec_lt len sizeof_mach_header_64) [
    | yes few ↦ record {
      status = failed;
      info = reset;
      runs = rw (lt→ltb len sizeof_mach_header_64 few) refl;
      meets = Thin.small few;
    }
    | no room ↦
        let (magic, e) = load32-some image mh_magic (omega (arith, y.magic_in)) in
        let (cputype, e1) = load32-some image mh_cputype (omega (arith, y.cputype_in)) in
        let (cpusubtype, e2) = load32-some image mh_cpusubtype (omega (arith, y.cpusubtype_in)) in
        let (ncmds, e3) = load32-some image mh_ncmds (omega (arith, y.ncmds_in)) in
        let enough = le→ltb len sizeof_mach_header_64 (omega arith) in
        let walked = walk-Chain l image len y h ncmds sizeof_mach_header_64 0 in
        elim (tested magic mh_magic_64 mh_cigam_64) [
          | neither p q t u ↦ record {
            status = failed;
            info = reset;
            runs = rw (enough, e, t) refl;
            meets = Thin.unknown magic (omega arith) e p q;
          }
          | either p t u ↦ record {
            status = parsed;
            info = record {
              m_cputype = cputype;
              m_cpusubtype = cpusubtype;
              m_ncmds = ncmds;
              m_fat = 0;
              m_codesign = signed l image len walked.cmds 0;
            };
            runs = rw (enough, e, t, e1, e2, e3, walked.runs) refl;
            meets =
                Thin.read magic cputype cpusubtype ncmds walked.cmds (omega arith) e p e1 e2 e3
                  walked.chain;
          }
        ]
  ]

  Fat-Ran : Layout l → len ≤ length image → Ran (Fat l image len) (macho_fat l image len reset)
  unfolding macho_fat
  Fat-Ran y h = elim (dec_lt len sizeof_fat_header) [
    | yes few ↦ record {
      status = failed;
      info = reset;
      runs = rw (lt→ltb len sizeof_fat_header few) refl;
      meets = Fat.small few;
    }
    | no room ↦
        let (magic, e) = load32-some image fh_magic (omega (arith, y.fat_magic_in)) in
        let (nfat_arch, f) = load32-some image fh_nfat_arch (omega (arith, y.nfat_arch_in)) in
        let enough = le→ltb len sizeof_fat_header (omega arith) in
        let end : ℕ = sizeof_fat_header + ntohl nfat_arch * sizeof_fat_arch in
        elim (tested magic fat_magic fat_cigam) [
          | neither p q t u ↦ record {
            status = failed;
            info = reset;
            runs = rw (enough, e, t) refl;
            meets = Fat.unknown magic (omega arith) e p q;
          }
          | either p t u ↦ elim (dec_lt len end) [
            | yes past ↦ record {
              status = failed;
              info = reset;
              runs = rw (enough, e, t, f, lt→ltb len end past) refl;
              meets = Fat.long magic nfat_arch e p f past;
            }
            | no whole ↦
                let found =
                  slices-Picked l image y len (ntohl nfat_arch) 0
                    (fat_info l image len (ntohl nfat_arch))
                    (omega (
                      arith,
                      mul-zero sizeof_fat_arch,
                      mul_comm (ntohl nfat_arch) sizeof_fat_arch,
                      h,
                    )) in
                record {
                  status = parsed;
                  info = chosen l image (fat_info l image len (ntohl nfat_arch)) found.sub;
                  runs = rw (enough, e, t, f, le→ltb len end (omega arith), found.runs) refl;
                  meets = Fat.read magic nfat_arch found.sub e p f (omega arith) found.picked;
                }
          ]
        ]
  ]

  dispatch-Ran :
      Layout l → 4 ≤ len → len ≤ length image → Ran (Reported l image len) (dispatch l image len)
  unfolding dispatch
  dispatch-Ran y few h =
      let (magic, e) = load32-some image 0 (omega arith) in
      elim (tested magic fat_magic fat_cigam) [
        | either p t u ↦
            let r = Fat-Ran y h in
            record {
              status = r.status;
              info = r.info;
              runs = rw (e, u) r.runs;
              meets = Reported.fat magic r.status r.info e p r.meets;
            }
        | neither p q t u ↦
            let r = Thin-Ran y h in
            record {
              status = r.status;
              info = r.info;
              runs = rw (e, u) r.runs;
              meets = Reported.thin magic r.status r.info e p q r.meets;
            }
      ]

  -- A buffer of which `len` bytes, at least four, may be read: `sebsd_macho_info` reads nothing
  -- outside of it, whatever the bytes are and whatever `info` held before, and leaves what is to be
  -- reported. On the status -1 that is all zeros. On 0 it is, for a thin image, the header's fields
  -- with `m_codesign` set just when LC_CODE_SIGNATURE is among the whole load commands that follow
  -- one another, and, for a fat one, the number of slices with the type and subtype of the first
  -- slice whose type is arm64, if one is.
  pub macho_info_lem :
      Layout l
      → 4 ≤ len
      → len ≤ length image
      → (info : MachoInfo)
      → (status : ℕ) × (left : MachoInfo) × (macho_info l (some image) len (some info)
          ≡ some (status, some left))
        × Reported l image len status left
  unfolding macho_info
  macho_info_lem y few h info =
      let r = dispatch-Ran y few h in
      (r.status, r.info, rw (le→ltb len 4 few, r.runs) refl, r.meets)
