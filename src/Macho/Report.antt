-- ===== src/Macho/Report.antt =====
-- What `sebsd_macho_info` of kext/MachO.c is to report of a thin image, a fat one, or neither.
use sedarwin.Prelude.{ℕ, ◌+◌, ◌*◌, ◌≤◌, ◌<◌, List, Option, some, ◌≡◌, ◌≢◌, ◌⊎◌}
use sedarwin.Macho.{Loader, MachoInfo, load32, parsed, failed, reset}
use sedarwin.Macho.Loads.{Chain, signed}
use sedarwin.Macho.Slices.{Picked, chosen}

module _ (l : Loader) (image : List ℕ) (len : ℕ) where
  open l use {
    mh_magic_64, mh_cigam_64, fat_magic, fat_cigam, sizeof_mach_header_64, mh_magic, mh_cputype,
    mh_cpusubtype, mh_ncmds, sizeof_fat_header, fh_magic, fh_nfat_arch, sizeof_fat_arch, ntohl,
  }

  abbrev pub IsFat : ℕ → Type 0
  IsFat magic = (magic ≡ fat_magic) ⊎ (magic ≡ fat_cigam)

  abbrev pub IsThin : ℕ → Type 0
  IsThin magic = (magic ≡ mh_magic_64) ⊎ (magic ≡ mh_cigam_64)

  -- What a fat header with `narch` slices gives, before a slice is chosen.
  abbrev pub fat_info : ℕ → MachoInfo
  fat_info narch = record {
    m_cputype = 0;
    m_cpusubtype = 0;
    m_ncmds = narch;
    m_fat = 1;
    m_codesign = 0;
  }

  pub data Thin : ℕ → MachoInfo → Type 0 where
    small : len < sizeof_mach_header_64 → Thin failed reset
    unknown :
        (magic : ℕ)
        → sizeof_mach_header_64 ≤ len
        → load32 image mh_magic ≡ some magic
        → magic ≢ mh_magic_64
        → magic ≢ mh_cigam_64
        → Thin failed reset
    read :
        (magic cputype cpusubtype ncmds : ℕ) (cmds : List ℕ)
        → sizeof_mach_header_64 ≤ len
        → load32 image mh_magic ≡ some magic
        → IsThin magic
        → load32 image mh_cputype ≡ some cputype
        → load32 image mh_cpusubtype ≡ some cpusubtype
        → load32 image mh_ncmds ≡ some ncmds
        → Chain l image len ncmds sizeof_mach_header_64 cmds
        → Thin parsed (record {
          m_cputype = cputype;
          m_cpusubtype = cpusubtype;
          m_ncmds = ncmds;
          m_fat = 0;
          m_codesign = signed l image len cmds 0;
        })

  pub data Fat : ℕ → MachoInfo → Type 0 where
    small : len < sizeof_fat_header → Fat failed reset
    unknown :
        (magic : ℕ)
        → sizeof_fat_header ≤ len
        → load32 image fh_magic ≡ some magic
        → magic ≢ fat_magic
        → magic ≢ fat_cigam
        → Fat failed reset
    long :
        (magic nfat_arch : ℕ)
        → load32 image fh_magic ≡ some magic
        → IsFat magic
        → load32 image fh_nfat_arch ≡ some nfat_arch
        → len < sizeof_fat_header + ntohl nfat_arch * sizeof_fat_arch
        → Fat failed reset
    read :
        (magic nfat_arch : ℕ) (sub : Option ℕ)
        → load32 image fh_magic ≡ some magic
        → IsFat magic
        → load32 image fh_nfat_arch ≡ some nfat_arch
        → sizeof_fat_header + ntohl nfat_arch * sizeof_fat_arch ≤ len
        → Picked l image (ntohl nfat_arch) 0 sub
        → Fat parsed (chosen l image (fat_info (ntohl nfat_arch)) sub)

  -- What is to be reported of a buffer of at least four bytes.
  pub data Reported : ℕ → MachoInfo → Type 0 where
    fat :
        (magic status : ℕ) (info : MachoInfo)
        → load32 image 0 ≡ some magic
        → IsFat magic
        → Fat status info
        → Reported status info
    thin :
        (magic status : ℕ) (info : MachoInfo)
        → load32 image 0 ≡ some magic
        → magic ≢ fat_magic
        → magic ≢ fat_cigam
        → Thin status info
        → Reported status info
