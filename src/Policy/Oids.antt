-- ===== src/Policy/Oids.antt =====
-- The sysctl oids of kext/main.c: what each `struct sysctl_oid` says.
use Prim.Native.String.{String}
use sedarwin.Prelude.{ℕ, List, [], ◌∷◌, Option, none, some}
use sedarwin.Trace.{codes}

pub data Oid : Type 0 where
  node : Oid
  trace : Oid
  hooks : Oid
  unsafe : Oid
  lookup_fuse : Oid
  lookup_maxdepth : Oid
  lookup_recursed : Oid
  lookup_count : Oid

-- `oid_parent`: the root `sysctl__children`, or the children of `sedarwin`.
pub data Parent : Type 0 where
  sysctl_children : Parent
  sebsd_sysctl_children : Parent

-- `oid_number`, which the kernel chooses.
pub data Number : Type 0 where
  oid_auto : Number

-- The type in `oid_kind`.
pub data Kind : Type 0 where
  ctltype_node : Kind
  ctltype_int : Kind

-- A flag in `oid_kind`.
pub data KindFlag : Type 0 where
  ctlflag_rw : KindFlag
  ctlflag_locked : KindFlag
  ctlflag_oid2 : KindFlag

-- `oid_version`.
pub data Version : Type 0 where
  sysctl_oid_version : Version

-- `oid_arg1`: the address of a variable.
pub data Variable : Type 0 where
  children : Variable
  trace_enabled : Variable
  hooks_enabled : Variable
  unsafe_enabled : Variable
  fuse : Variable
  maxdepth : Variable
  recursed : Variable
  count : Variable

-- `oid_handler`, which may be NULL.
pub data Handler : Type 0 where
  sysctl_handle_int : Handler
  sysctl_hooks_handler : Handler

pub record SysctlOid : Type 0 where
  pub oid_parent : Parent
  pub oid_number : Number
  pub oid_kind : Kind
  pub oid_flags : List KindFlag
  pub oid_arg1 : Variable
  pub oid_arg2 : ℕ
  pub oid_name : List ℕ
  pub oid_handler : Option Handler
  pub oid_fmt : List ℕ
  pub oid_descr : List ℕ
  pub oid_version : Version

abbrev kind_flags : List KindFlag
kind_flags = KindFlag.ctlflag_rw ∷ KindFlag.ctlflag_locked ∷ KindFlag.ctlflag_oid2 ∷ []

-- An integer under `sedarwin`.
abbrev leaf : Variable → String → Handler → String → String → SysctlOid
leaf variable name handler fmt descr = record {
  oid_parent = Parent.sebsd_sysctl_children;
  oid_number = Number.oid_auto;
  oid_kind = Kind.ctltype_int;
  oid_flags = kind_flags;
  oid_arg1 = variable;
  oid_arg2 = 0;
  oid_name = codes name;
  oid_handler = some handler;
  oid_fmt = codes fmt;
  oid_descr = codes descr;
  oid_version = Version.sysctl_oid_version;
}

abbrev pub sysctl_oid : Oid → SysctlOid
sysctl_oid node = record {
  oid_parent = Parent.sysctl_children;
  oid_number = Number.oid_auto;
  oid_kind = Kind.ctltype_node;
  oid_flags = kind_flags;
  oid_arg1 = Variable.children;
  oid_arg2 = 0;
  oid_name = codes "sedarwin";
  oid_handler = none;
  oid_fmt = codes "N";
  oid_descr = codes "SEDarwin security policy";
  oid_version = Version.sysctl_oid_version;
}
sysctl_oid trace =
    leaf Variable.trace_enabled "trace" Handler.sysctl_handle_int "I" "emit per-event trace lines"
sysctl_oid hooks =
    leaf Variable.hooks_enabled "hooks" Handler.sysctl_hooks_handler "I"
      "installed hook groups (bitmask; 0 = none)"
sysctl_oid unsafe =
    leaf Variable.unsafe_enabled "unsafe" Handler.sysctl_handle_int "I"
      "permit hooks known to wedge the machine"
sysctl_oid lookup_fuse =
    leaf Variable.fuse "lookup_fuse" Handler.sysctl_handle_int "I"
      "uninstall the lookup hook after N dispatches (0 = never)"
sysctl_oid lookup_maxdepth =
    leaf Variable.maxdepth "lookup_maxdepth" Handler.sysctl_handle_int "IU"
      "peak simultaneous entries into the lookup hook"
sysctl_oid lookup_recursed =
    leaf Variable.recursed "lookup_recursed" Handler.sysctl_handle_int "IU"
      "set if the lookup hook was re-entered on one thread"
sysctl_oid lookup_count =
    leaf Variable.count "lookup_count" Handler.sysctl_handle_int "IU"
      "dispatches seen by the quarantined lookup hook"
