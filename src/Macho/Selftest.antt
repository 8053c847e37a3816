-- ===== src/Macho/Selftest.antt =====
-- `sebsd_macho_selftest` of kext/MachO.c: the parser on the image that the load builds.
use sedarwin.Prelude.{ℕ, ◌+◌, List, ◌++◌, Option, none, some, not, ◌==◌, if◌then◌else◌, bit_or}
use sedarwin.Macho.{Loader, MachoInfo, ◌>>=◌, macho_info}

-- The fields of `struct mach_header_64` and of `struct linkedit_data_command`.
pub record Header : Type 0 where
  pub magic : ℕ
  pub cputype : ℕ
  pub cpusubtype : ℕ
  pub filetype : ℕ
  pub ncmds : ℕ
  pub sizeofcmds : ℕ
  pub flags : ℕ
  pub reserved : ℕ

pub record Linkedit : Type 0 where
  pub cmd : ℕ
  pub cmdsize : ℕ
  pub dataoff : ℕ
  pub datasize : ℕ

-- How the two structures are laid out in memory, and the other constants.
pub record Encoder : Type 0 where
  pub mach_header_64 : Header → List ℕ
  pub linkedit_data_command : Linkedit → List ℕ
  pub sizeof_linkedit_data_command : ℕ
  pub cpu_subtype_arm64e : ℕ
  pub cpu_subtype_lib64 : ℕ
  pub mh_execute : ℕ
  pub mh_noundefs : ℕ
  pub mh_twolevel : ℕ

-- What the self-test prints.
pub data Report : Type 0 where
  failed_to_parse : Report
  report : MachoInfo → Report

-- What is printed after the status 0; `info` is the address of a local variable.
unfoldable pub told : Option MachoInfo → Option Report
told none = none
told (some info) = some (Report.report info)

module _ (l : Loader) (x : Encoder) where
  abbrev pub header : Header
  header = record {
    magic = l.mh_magic_64;
    cputype = l.cpu_type_arm64;
    cpusubtype = bit_or x.cpu_subtype_arm64e x.cpu_subtype_lib64;
    filetype = x.mh_execute;
    ncmds = 1;
    sizeofcmds = x.sizeof_linkedit_data_command;
    flags = bit_or x.mh_noundefs x.mh_twolevel;
    reserved = 0;
  }

  abbrev pub command : Linkedit
  command = record {
    cmd = l.lc_code_signature;
    cmdsize = x.sizeof_linkedit_data_command;
    dataoff = 0x1000;
    datasize = 0x400;
  }

  -- The structure of both, without padding between them.
  abbrev pub synthetic : List ℕ
  synthetic = x.mach_header_64 header ++ x.linkedit_data_command command

  -- `info` is what the local variable holds before.
  unfoldable pub macho_selftest : MachoInfo → Option Report
  unfolding told
  macho_selftest info = do
    (status, left) ←
        macho_info l (some synthetic) (l.sizeof_mach_header_64 + x.sizeof_linkedit_data_command)
          (some info)
    if not (status == 0) then some Report.failed_to_parse else told left
