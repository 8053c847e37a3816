-- ===== src/Macho.antt =====
-- The Mach-O parser of kext/MachO.c with `struct sebsd_macho_info` of kext/kernel.h. The image is the
-- bytes of a buffer, of which the caller says that `len` may be read; a read outside of the buffer
-- is `none`. What <mach-o/loader.h>, <mach-o/fat.h> and <mach/machine.h> define is a parameter.
pub mod Loads
pub mod Slices
pub mod Report
pub mod Parse
pub mod NetworkOrder
pub mod Selftest
pub mod Image
use sedarwin.Prelude.{
  ℕ, zero, suc, ◌+◌, ◌*◌, ◌-◌, ◌^◌, ◌<◌, ◌≤◌, Bool, true, false, List, [], ◌∷◌, Option, none, some,
  ◌≡◌, ltb, ◌==◌, ◌||◌, ◌&&◌, not, if◌then◌else◌, bit_and, get_elem?, length,
}
use sedarwin.Mask.{complement}

-- Sizes of the structures, where their fields stand, and the constants.
pub record Loader : Type 0 where
  pub mh_magic_64 : ℕ
  pub mh_cigam_64 : ℕ
  pub fat_magic : ℕ
  pub fat_cigam : ℕ
  pub lc_code_signature : ℕ
  pub cpu_type_arm64 : ℕ
  pub cpu_subtype_mask : ℕ
  -- struct mach_header_64
  pub sizeof_mach_header_64 : ℕ
  pub mh_magic : ℕ
  pub mh_cputype : ℕ
  pub mh_cpusubtype : ℕ
  pub mh_ncmds : ℕ
  -- struct load_command
  pub sizeof_load_command : ℕ
  pub lc_cmd : ℕ
  pub lc_cmdsize : ℕ
  -- struct fat_header
  pub sizeof_fat_header : ℕ
  pub fh_magic : ℕ
  pub fh_nfat_arch : ℕ
  -- struct fat_arch
  pub sizeof_fat_arch : ℕ
  pub fa_cputype : ℕ
  pub fa_cpusubtype : ℕ
  -- the conversion from network order
  pub ntohl : ℕ → ℕ

-- struct sebsd_macho_info
pub record MachoInfo : Type 0 where
  pub m_cputype : ℕ
  pub m_cpusubtype : ℕ
  pub m_ncmds : ℕ
  pub m_fat : ℕ
  pub m_codesign : ℕ

-- What `info` is set to first.
abbrev pub reset : MachoInfo
reset = record { m_cputype = 0; m_cpusubtype = 0; m_ncmds = 0; m_fat = 0; m_codesign = 0 }

infixl 5 ◌>>=◌
abbrev pub ◌>>=◌ : {A B : Type 0} → Option A → (A → Option B) → Option B
none >>= f = none
some a >>= f = f a

-- A 32-bit load on a little-endian machine.
unfoldable pub load32 : List ℕ → ℕ → Option ℕ
load32 image off = do
  b0 ← get_elem? image off
  b1 ← get_elem? image (off + 1)
  b2 ← get_elem? image (off + 2)
  b3 ← get_elem? image (off + 3)
  some (b0 + 0x100 * b1 + 0x1_0000 * b2 + 0x100_0000 * b3)

-- The status 0 and -1.
abbrev pub parsed : ℕ
parsed = 0

abbrev pub failed : ℕ
failed = 0xffff_ffff

module _ (l : Loader) (image : List ℕ) (len : ℕ) where
  open l use {
    mh_magic_64, mh_cigam_64, fat_magic, fat_cigam, lc_code_signature, cpu_type_arm64,
    cpu_subtype_mask, sizeof_mach_header_64, mh_magic, mh_cputype, mh_cpusubtype, mh_ncmds,
    sizeof_load_command, lc_cmd, lc_cmdsize, sizeof_fat_header, fh_magic, fh_nfat_arch,
    sizeof_fat_arch, fa_cputype, fa_cpusubtype, ntohl,
  }

  -- The loop over the load commands: `n` rounds are left, `flag` is `m_codesign`.
  unfoldable pub walk : (n off flag : ℕ) → Option ℕ
  walk zero off flag = some flag
  walk (suc n) off flag = if ltb len (off + sizeof_load_command) then some flag else do
    cmdsize ← load32 image (off + lc_cmdsize)
    if ltb cmdsize sizeof_load_command || ltb len (off + cmdsize) then some flag else do
      cmd ← load32 image (off + lc_cmd)
      walk n (off + cmdsize) (if cmd == lc_code_signature then 1 else flag)

  -- `sebsd_macho_thin`
  unfoldable pub macho_thin : MachoInfo → Option (ℕ × MachoInfo)
  unfolding walk
  macho_thin info = if ltb len sizeof_mach_header_64 then some (failed, info) else do
    magic ← load32 image mh_magic
    if not (magic == mh_magic_64) && not (magic == mh_cigam_64) then some (failed, info) else do
      cputype ← load32 image mh_cputype
      cpusubtype ← load32 image mh_cpusubtype
      ncmds ← load32 image mh_ncmds
      flag ← walk ncmds sizeof_mach_header_64 info.m_codesign
      some (
        parsed,
        record {
          m_cputype = cputype;
          m_cpusubtype = cpusubtype;
          m_ncmds = ncmds;
          m_fat = 0;
          m_codesign = flag;
        },
      )

  -- The loop over the slices: `n` are left, the next one is `fa[i]`.
  unfoldable pub slices : (n i : ℕ) → MachoInfo → Option MachoInfo
  slices zero i info = some info
  slices (suc n) i info = do
    cputype ← load32 image (sizeof_fat_header + sizeof_fat_arch * i + fa_cputype)
    if cputype == cpu_type_arm64
        then (do
          cpusubtype ← load32 image (sizeof_fat_header + sizeof_fat_arch * i + fa_cpusubtype)
          some (record {
            m_cputype = cputype;
            m_cpusubtype = bit_and cpusubtype (complement cpu_subtype_mask);
            m_ncmds = info.m_ncmds;
            m_fat = info.m_fat;
            m_codesign = info.m_codesign;
          }))
        else slices n (suc i) info

  -- `sebsd_macho_fat`
  unfoldable pub macho_fat : MachoInfo → Option (ℕ × MachoInfo)
  unfolding slices
  macho_fat info = if ltb len sizeof_fat_header then some (failed, info) else do
    magic ← load32 image fh_magic
    if not (magic == fat_magic) && not (magic == fat_cigam) then some (failed, info) else do
      nfat_arch ← load32 image fh_nfat_arch
      let narch : ℕ = ntohl nfat_arch in
          if ltb len (sizeof_fat_header + narch * sizeof_fat_arch) then some (failed, info) else do
            found ← slices narch 0 (record {
              m_cputype = info.m_cputype;
              m_cpusubtype = info.m_cpusubtype;
              m_ncmds = narch;
              m_fat = 1;
              m_codesign = 0;
            })
            some (parsed, found)

  unfoldable pub dispatch : Option (ℕ × MachoInfo)
  unfolding macho_thin macho_fat
  dispatch = do
    magic ← load32 image 0
    if magic == fat_magic || magic == fat_cigam then macho_fat reset else macho_thin reset

-- `sebsd_macho_info(image, len, info)`: the status and what `info` points to afterwards.
unfoldable pub macho_info :
    Loader → Option (List ℕ) → ℕ → Option MachoInfo → Option (ℕ × Option MachoInfo)
unfolding dispatch
macho_info l none len info = some (failed, info)
macho_info l (some image) len none = some (failed, none)
macho_info l (some image) len (some info) =
    if ltb len 4
    then some (failed, some info)
    else do (status, left) ← dispatch l image len; some (status, some left)
