-- ===== src/Macho/Image.antt =====
-- The self-test of kext/MachO.c finds in its image what it put there.
use sedarwin.Prelude.{
  ℕ, zero, suc, ◌+◌, ◌^◌, ◌<◌, ◌≤◌, List, [], ◌∷◌, ◌++◌, some, ◌≡◌, ◌≢◌, ◌∙◌, refl, sym, ap, arith,
  bit_or, get_elem?, length, le→ltb, ==_false, ==_iff,
}
use sedarwin.Macho.{
  Loader, MachoInfo, load32, walk, macho_thin, dispatch, macho_info, reset, parsed,
}
use sedarwin.Macho.Loads.{Layout}
use sedarwin.Macho.Selftest.{
  Header, Linkedit, Encoder, Report, header, command, synthetic, macho_selftest, told,
}

get_elem?-append : (xs ys : List ℕ) (i : ℕ) → get_elem? (xs ++ ys) (length xs + i) ≡ get_elem? ys i
get_elem?-append [] ys i =
    let same : length {A = ℕ} [] + i ≡ i = omega arith in ap (get_elem? ys) same
get_elem?-append (x ∷ xs) ys i =
    let shifted : length (x ∷ xs) + i ≡ suc (length xs + i) = omega arith in
    ap (get_elem? (x ∷ (xs ++ ys))) shifted ∙ get_elem?-append xs ys i

get_elem?-before :
    (xs ys : List ℕ) (i : ℕ) → i < length xs → get_elem? (xs ++ ys) i ≡ get_elem? xs i
get_elem?-before [] ys i h = absurd (omega arith)
get_elem?-before (x ∷ xs) ys zero h = refl
get_elem?-before (x ∷ xs) ys (suc i) h = get_elem?-before xs ys i (omega arith)

-- A load from the first or from the second of two structures that stand side by side.
load32-before :
    (xs ys : List ℕ) (off : ℕ) → off + 4 ≤ length xs → load32 (xs ++ ys) off ≡ load32 xs off
unfolding load32
load32-before xs ys off h =
    rw
      (
        get_elem?-before xs ys off (omega arith),
        get_elem?-before xs ys (off + 1) (omega arith),
        get_elem?-before xs ys (off + 2) (omega arith),
        get_elem?-before xs ys (off + 3) (omega arith),
      )
      refl

at-append : (xs ys : List ℕ) (i n : ℕ) → n ≡ length xs + i → get_elem? (xs ++ ys) n ≡ get_elem? ys i
at-append xs ys i n e = ap (get_elem? (xs ++ ys)) e ∙ get_elem?-append xs ys i

load32-behind :
    (xs ys : List ℕ) (n off : ℕ) → n ≡ length xs → load32 (xs ++ ys) (n + off) ≡ load32 ys off
unfolding load32
load32-behind xs ys n off e =
    rw
      (
        at-append xs ys off (n + off) (omega arith),
        at-append xs ys (off + 1) (n + off + 1) (omega arith),
        at-append xs ys (off + 2) (n + off + 2) (omega arith),
        at-append xs ys (off + 3) (n + off + 3) (omega arith),
      )
      refl

-- A structure in memory gives its fields back to 32-bit loads at their offsets.
pub record Encodes (l : Loader) (x : Encoder) : Type 0 where
  pub header_size : (h : Header) → length (x.mach_header_64 h) ≡ l.sizeof_mach_header_64
  pub magic :
      (h : Header) → h.magic < 2 ^ 32 → load32 (x.mach_header_64 h) l.mh_magic ≡ some h.magic
  pub cputype :
      (h : Header) → h.cputype < 2 ^ 32 → load32 (x.mach_header_64 h) l.mh_cputype ≡ some h.cputype
  pub cpusubtype :
      (h : Header)
      → h.cpusubtype < 2 ^ 32
      → load32 (x.mach_header_64 h) l.mh_cpusubtype ≡ some h.cpusubtype
  pub ncmds :
      (h : Header) → h.ncmds < 2 ^ 32 → load32 (x.mach_header_64 h) l.mh_ncmds ≡ some h.ncmds
  pub command_size :
      (c : Linkedit) → length (x.linkedit_data_command c) ≡ x.sizeof_linkedit_data_command
  pub cmd :
      (c : Linkedit) → c.cmd < 2 ^ 32 → load32 (x.linkedit_data_command c) l.lc_cmd ≡ some c.cmd
  pub cmdsize :
      (c : Linkedit)
      → c.cmdsize < 2 ^ 32
      → load32 (x.linkedit_data_command c) l.lc_cmdsize ≡ some c.cmdsize

-- The constants are `uint32_t`, the magic number is the first field and no fat one, and a linkedit
-- command starts with a load command.
pub record AreConstants (l : Loader) (x : Encoder) : Type 0 where
  pub magic_first : l.mh_magic ≡ 0
  pub magic_fits : l.mh_magic_64 < 2 ^ 32
  pub not_fat : l.mh_magic_64 ≢ l.fat_magic
  pub not_swapped_fat : l.mh_magic_64 ≢ l.fat_cigam
  pub cputype_fits : l.cpu_type_arm64 < 2 ^ 32
  pub cpusubtype_fits : bit_or x.cpu_subtype_arm64e x.cpu_subtype_lib64 < 2 ^ 32
  pub cmd_fits : l.lc_code_signature < 2 ^ 32
  pub size_fits : x.sizeof_linkedit_data_command < 2 ^ 32
  pub starts : l.sizeof_load_command ≤ x.sizeof_linkedit_data_command

module _ (l : Loader) (x : Encoder) where
  -- What the parser is to find.
  abbrev pub expected : MachoInfo
  expected = record {
    m_cputype = l.cpu_type_arm64;
    m_cpusubtype = bit_or x.cpu_subtype_arm64e x.cpu_subtype_lib64;
    m_ncmds = 1;
    m_fat = 0;
    m_codesign = 1;
  }

module _ (l : Loader) (x : Encoder) (y : Layout l) (e : Encodes l x) (c : AreConstants l x) where
  abbrev hdr : List ℕ
  hdr = x.mach_header_64 (header l x)

  abbrev cs : List ℕ
  cs = x.linkedit_data_command (command l x)

  abbrev size : ℕ
  size = l.sizeof_mach_header_64 + x.sizeof_linkedit_data_command

  loads_header :
      (off v : ℕ)
      → off + 4 ≤ l.sizeof_mach_header_64
      → load32 hdr off ≡ some v
      → load32 (synthetic l x) off ≡ some v
  loads_header off v h at =
      load32-before hdr cs off (omega (arith, e.header_size (header l x), h)) ∙ at

  loads_command :
      (off v : ℕ)
      → load32 cs off ≡ some v
      → load32 (synthetic l x) (l.sizeof_mach_header_64 + off) ≡ some v
  loads_command off v at =
      load32-behind hdr cs l.sizeof_mach_header_64 off (sym (e.header_size (header l x))) ∙ at

  walk_one : walk l (synthetic l x) size 1 l.sizeof_mach_header_64 0 ≡ some 1
  unfolding walk
  walk_one =
      let cmdsize =
        loads_command l.lc_cmdsize x.sizeof_linkedit_data_command
          (e.cmdsize (command l x) c.size_fits) in
      let cmd = loads_command l.lc_cmd l.lc_code_signature (e.cmd (command l x) c.cmd_fits) in
      let room =
        le→ltb size (l.sizeof_mach_header_64 + l.sizeof_load_command) (omega (arith, c.starts)) in
      let enough = le→ltb x.sizeof_linkedit_data_command l.sizeof_load_command c.starts in
      let whole =
        le→ltb size (l.sizeof_mach_header_64 + x.sizeof_linkedit_data_command) (omega arith) in
      let same = (==_iff l.lc_code_signature l.lc_code_signature).1 refl in
      rw (room, cmdsize, enough, whole, cmd, same) refl

  thin_runs : macho_thin l (synthetic l x) size reset ≡ some (parsed, expected l x)
  unfolding macho_thin
  thin_runs =
      let magic =
        loads_header l.mh_magic l.mh_magic_64 y.magic_in (e.magic (header l x) c.magic_fits) in
      let cputype =
        loads_header l.mh_cputype l.cpu_type_arm64 y.cputype_in
          (e.cputype (header l x) c.cputype_fits) in
      let cpusubtype =
        loads_header l.mh_cpusubtype (bit_or x.cpu_subtype_arm64e x.cpu_subtype_lib64)
          y.cpusubtype_in (e.cpusubtype (header l x) c.cpusubtype_fits) in
      let ncmds = loads_header l.mh_ncmds 1 y.ncmds_in (e.ncmds (header l x) (omega arith)) in
      let room = le→ltb size l.sizeof_mach_header_64 (omega arith) in
      let same = (==_iff l.mh_magic_64 l.mh_magic_64).1 refl in
      rw (room, magic, same, cputype, cpusubtype, ncmds, walk_one) refl

  dispatch_runs : dispatch l (synthetic l x) size ≡ some (parsed, expected l x)
  unfolding dispatch
  dispatch_runs =
      let magic =
        loads_header l.mh_magic l.mh_magic_64 y.magic_in (e.magic (header l x) c.magic_fits) in
      let first : load32 (synthetic l x) 0 ≡ some l.mh_magic_64 =
        ap (load32 (synthetic l x)) (sym c.magic_first) ∙ magic in
      rw
        (
          first,
          ==_false l.mh_magic_64 l.fat_magic c.not_fat,
          ==_false l.mh_magic_64 l.fat_cigam c.not_swapped_fat,
        )
        thin_runs

  -- The self-test reads its image back: whatever its local variable held before, it reports a thin
  -- arm64 image with the subtype that it wrote, one load command and a code signature. The two
  -- structures give their fields back to loads, and the headers' constants fit their fields.
  pub macho_selftest_lem :
      (info : MachoInfo) → macho_selftest l x info ≡ some (Report.report (expected l x))
  unfolding macho_selftest macho_info told
  macho_selftest_lem info = rw (le→ltb size 4 (omega (arith, y.magic_in)), dispatch_runs) refl
