-- ===== src/Tests/Selftest.antt =====
-- The self-test of the Mach-O parser with the structures laid out word by word.
use sedarwin.Prelude.{
  ℕ, ◌+◌, ◌*◌, ◌/◌, ◌%◌, ◌^◌, ◌<◌, List, [], ◌∷◌, ◌++◌, some, ◌≡◌, refl, ap, arith,
}
use sedarwin.Macho.{load32, reset}
use sedarwin.Macho.Selftest.{Encoder, Report, macho_selftest}
use sedarwin.Macho.Image.{Encodes, AreConstants, expected, macho_selftest_lem}
use sedarwin.Tests.Setting.{loader}
use sedarwin.Tests.Macho.{layout}

abbrev word : ℕ → List ℕ
word v = v % 0x100 ∷ v / 0x100 % 0x100 ∷ v / 0x1_0000 % 0x100 ∷ v / 0x100_0000 % 0x100 ∷ []

abbrev encoder : Encoder
encoder = record {
  mach_header_64 = λ h.
      word h.magic
      ++ (word h.cputype
          ++ (word h.cpusubtype
              ++ (word h.filetype
                  ++ (word h.ncmds ++ (word h.sizeofcmds ++ (word h.flags ++ word h.reserved))))));
  linkedit_data_command =
      λ c. word c.cmd ++ (word c.cmdsize ++ (word c.dataoff ++ word c.datasize));
  sizeof_linkedit_data_command = 16;
  cpu_subtype_arm64e = 2;
  cpu_subtype_lib64 = 0x8000_0000;
  mh_execute = 2;
  mh_noundefs = 1;
  mh_twolevel = 0x80;
}

word_back :
    (v : ℕ)
    → v < 2 ^ 32
    → v % 0x100
        + 0x100 * (v / 0x100 % 0x100)
        + 0x1_0000 * (v / 0x1_0000 % 0x100)
        + 0x100_0000 * (v / 0x100_0000 % 0x100)
      ≡ v
word_back v h = omega arith

encodes : Encodes loader encoder
unfolding load32
encodes = record {
  header_size = λ h. refl;
  magic = λ h p. ap some (word_back h.magic p);
  cputype = λ h p. ap some (word_back h.cputype p);
  cpusubtype = λ h p. ap some (word_back h.cpusubtype p);
  ncmds = λ h p. ap some (word_back h.ncmds p);
  command_size = λ c. refl;
  cmd = λ c p. ap some (word_back c.cmd p);
  cmdsize = λ c p. ap some (word_back c.cmdsize p);
}

constants : AreConstants loader encoder
constants = record {
  magic_first = refl;
  magic_fits = omega arith;
  not_fat = λ e. omega arith;
  not_swapped_fat = λ e. omega arith;
  cputype_fits = omega arith;
  cpusubtype_fits = omega arith;
  cmd_fits = omega arith;
  size_fits = omega arith;
  starts = omega arith;
}

macho_selftest_lem_example :
    macho_selftest loader encoder reset ≡ some (Report.report (expected loader encoder))
macho_selftest_lem_example = macho_selftest_lem loader encoder layout encodes constants reset
