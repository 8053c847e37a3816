-- ===== src/Tests/Setting.antt =====
-- Concrete values for what the kernel, the loader's headers and the framework provide.
use sedarwin.Prelude.{
  ℕ, ◌+◌, ◌*◌, ◌/◌, ◌%◌, none, some, length-replicate, replicate, ◌==◌, if◌then◌else◌,
}
use sedarwin.Kernel.{Kernel}
use sedarwin.Trace.{codes, ComponentName}
use sedarwin.Policy.{Request, Framework}
use sedarwin.Macho.{Loader}

-- Process 10 runs as pid 77; the process behind ident 5 has exited.
abbrev pub kernel : Kernel
kernel = record {
  current_proc = 10;
  current_thread = 0x8000;
  proc_pid = λ p. p + 67;
  proc_selfname = λ size. codes "zsh";
  proc_name = λ pid size. codes "launchd";
  proc_find_ident = λ ident. if ident == 5 then none else some ident;
  kauth_cred_getuid = λ cred. 501;
  local_array = λ n. replicate n 7;
  length-local_array = λ n. length-replicate n 7;
  cs_valid = 0x1;
  cs_adhoc = 0x2;
  cs_signed = 0x2000_0000;
  cs_hard = 0x100;
  cs_kill = 0x200;
  cs_runtime = 0x1_0000;
  cs_restrict = 0x800;
  cs_debugged = 0x1000_0000;
  cs_platform_binary = 0x400_0000;
  cs_installer = 0x8;
  maxcomlen = 16;
  sigkill = 9;
  sigsegv = 11;
  sigbus = 10;
  sigill = 4;
  sigabrt = 6;
  sigterm = 15;
  major = λ dev. dev / 0x100_0000;
  minor = λ dev. dev % 0x100_0000;
}

-- A component whose length counts a byte more than its NUL-terminated text has.
abbrev pub component : ComponentName
component = record {
  cn_nameptr = some (codes "etc");
  cn_namelen = 3;
  cn_nameiop = 0;
  cn_flags = 0x40;
}

abbrev pub loader : Loader
loader = record {
  mh_magic_64 = 0xfeed_facf;
  mh_cigam_64 = 0xcffa_edfe;
  fat_magic = 0xcafe_babe;
  fat_cigam = 0xbeba_feca;
  lc_code_signature = 0x1d;
  cpu_type_arm64 = 0x100_000c;
  cpu_subtype_mask = 0xff00_0000;
  sizeof_mach_header_64 = 32;
  mh_magic = 0;
  mh_cputype = 4;
  mh_cpusubtype = 8;
  mh_ncmds = 16;
  sizeof_load_command = 8;
  lc_cmd = 0;
  lc_cmdsize = 4;
  sizeof_fat_header = 8;
  fh_magic = 0;
  fh_nfat_arch = 4;
  sizeof_fat_arch = 20;
  fa_cputype = 0;
  fa_cpusubtype = 4;
  ntohl = λ x.
      x % 0x100 * 0x100_0000
      + x / 0x100 % 0x100 * 0x1_0000
      + x / 0x1_0000 % 0x100 * 0x100
      + x / 0x100_0000;
}

-- A framework that takes the policy and does not let it go.
abbrev pub framework : Framework
framework = record {
  sysctl_handle_int = λ req v. (0, req.newval);
  mac_policy_register = (0, 3);
  mac_policy_unregister = λ handle. 16;
  einval = 22;
  eperm = 1;
  kern_success = 0;
  kern_failure = 5;
}

abbrev pub write : ℕ → Request
write v = record { newptr = 0x1000; newval = v }
