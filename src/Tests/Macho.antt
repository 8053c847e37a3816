-- ===== src/Tests/Macho.antt =====
-- The Mach-O parser at concrete images.
use sedarwin.Prelude.{
  is_among, true, ℕ, zero, suc, ◌+◌, ◌*◌, ◌≤◌, List, [], ◌∷◌, none, some, ◌≡◌, inr, refl, sym, ap,
  arith, length,
}
use sedarwin.Macho.{MachoInfo, load32, walk, macho_info, parsed, reset}
use sedarwin.Macho.Loads.{Layout, Chain, signed, walk_bound}
use sedarwin.Macho.Slices.{AreNetworkOrder}
use sedarwin.Macho.Report.{Reported, fat_info}
use sedarwin.Macho.Parse.{macho_info_lem}
use sedarwin.Macho.NetworkOrder.{macho_info-network_order}
use sedarwin.Tests.Setting.{loader}

abbrev pub layout : Layout loader
layout = record {
  magic_in = omega arith;
  cputype_in = omega arith;
  cpusubtype_in = omega arith;
  ncmds_in = omega arith;
  cmd_in = omega arith;
  cmdsize_in = omega arith;
  fat_magic_in = omega arith;
  nfat_arch_in = omega arith;
  slice_type_in = omega arith;
  slice_subtype_in = omega arith;
}

-- A header with one LC_CODE_SIGNATURE of sixteen bytes.
abbrev thin_image : List ℕ
thin_image =
    0xcf ∷ 0xfa ∷ 0xed ∷ 0xfe ∷ 0x0c ∷ 0 ∷ 0 ∷ 1 ∷ 2 ∷ 0 ∷ 0 ∷ 0x80 ∷ 2 ∷ 0 ∷ 0 ∷ 0 ∷ 1 ∷ 0 ∷ 0 ∷ 0
    ∷ 16 ∷ 0 ∷ 0 ∷ 0 ∷ 0x81 ∷ 0 ∷ 0 ∷ 0 ∷ 0 ∷ 0 ∷ 0 ∷ 0 ∷ 0x1d ∷ 0 ∷ 0 ∷ 0 ∷ 16 ∷ 0 ∷ 0 ∷ 0 ∷ 0 ∷ 16
    ∷ 0 ∷ 0 ∷ 0 ∷ 4 ∷ 0 ∷ 0 ∷ []

macho_info_lem_example :
    (status : ℕ) × (left : MachoInfo) × (macho_info loader (some thin_image) 48 (some reset)
      ≡ some (status, some left))
    × Reported loader thin_image 48 status left
macho_info_lem_example =
    macho_info_lem loader thin_image 48 layout (omega arith) (omega arith) reset

walk_bound_example :
    (cmds : List ℕ) × Chain loader thin_image 48 1000 32 cmds
    × (walk loader thin_image 48 1000 32 0 ≡ some (signed loader thin_image 48 cmds 0))
    × (length cmds ≤ 1000)
    × (32 + loader.sizeof_load_command * length cmds ≤ 48)
walk_bound_example = walk_bound loader thin_image 48 layout (omega arith) 1000 32 0 (omega arith)

-- A fat file with two slices, for x86_64 and for arm64, in network order.
abbrev fat_image : List ℕ
fat_image =
    0xca ∷ 0xfe ∷ 0xba ∷ 0xbe ∷ 0 ∷ 0 ∷ 0 ∷ 2 ∷ 1 ∷ 0 ∷ 0 ∷ 0x07 ∷ 0 ∷ 0 ∷ 0 ∷ 3 ∷ 0 ∷ 0 ∷ 64 ∷ 0
    ∷ 0 ∷ 0 ∷ 1 ∷ 0 ∷ 0 ∷ 0 ∷ 0 ∷ 14 ∷ 1 ∷ 0 ∷ 0 ∷ 0x0c ∷ 0 ∷ 0 ∷ 0 ∷ 2 ∷ 0 ∷ 0 ∷ 128 ∷ 0 ∷ 0 ∷ 0
    ∷ 1 ∷ 0 ∷ 0 ∷ 0 ∷ 0 ∷ 14 ∷ []

-- CPU_TYPE_X86_64 and CPU_TYPE_ARM64.
abbrev types : List ℕ
types = 0x100_0007 ∷ 0x100_000c ∷ []

network_order : AreNetworkOrder loader fat_image types 2
unfolding load32
network_order zero cputype h e =
    ap (λ o. elim o [ none ↦ true | some x ↦ is_among (loader.ntohl x) types ]) (sym e)
network_order (suc zero) cputype h e =
    ap (λ o. elim o [ none ↦ true | some x ↦ is_among (loader.ntohl x) types ]) (sym e)
network_order (suc (suc i)) cputype h e = absurd (omega arith)

macho_info-network_order_example :
    macho_info loader (some fat_image) 48 (some reset)
    ≡ some (parsed, some (fat_info loader fat_image 48 2))
unfolding load32
macho_info-network_order_example =
    macho_info-network_order loader fat_image 48 types layout (omega arith) (omega arith) refl refl
      (inr refl) refl (omega arith) network_order refl reset
