-- ===== src/Lifecycle.antt =====
-- The policy's descriptor and the lifecycle hooks of kext/main.c: what they print.
use Prim.Native.String.{String}
use sedarwin.Prelude.{ℕ, ◌*◌, List, [], ◌∷◌, Option, none, some, ◌≡◌, refl, length}
use sedarwin.Abi.{Conf, ops_slots, sizeof_ops}
use sedarwin.Macho.{Loader, MachoInfo}
use sedarwin.Macho.Loads.{Layout}
use sedarwin.Macho.Selftest.{Encoder, Report, macho_selftest}
use sedarwin.Macho.Image.{Encodes, AreConstants, expected, macho_selftest_lem}

-- `sebsd_policy_conf`, with the address of `sebsd_ops`; a member without an initializer is zero.
abbrev pub policy_conf : ℕ → Conf
policy_conf ops = record {
  mpc_name = "com.beako.security.sedarwin";
  mpc_fullname = "SEDarwin Security Extension";
  mpc_labelnames = none;
  mpc_labelname_count = 0;
  mpc_ops = ops;
  mpc_loadtime_flags = 0;
  mpc_field_off = none;
  mpc_runtime_flags = 0;
  mpc_list = none;
  mpc_data = none;
}

abbrev pub policy_version : String
policy_version = "0.0.1"

-- MAC_POLICY_OPS_SLOTS
abbrev pub mac_policy_ops_slots : ℕ
mac_policy_ops_slots = 335

-- A line that a lifecycle hook prints.
pub data Notice : Type 0 where
  init : (fullname : String) → Notice
  initbsd : (name version : String) (ops slots bytes : ℕ) → Notice
  selftest : Report → Notice
  destroy : (name : String) → Notice

unfoldable pub policy_init : Conf → List Notice
policy_init mpc = Notice.init mpc.mpc_fullname ∷ []

-- `info` is the local variable of the self-test.
unfoldable pub policy_initbsd : Loader → Encoder → MachoInfo → Conf → Option (List Notice)
policy_initbsd l x info mpc = elim (macho_selftest l x info) [
  | none ↦ none
  | some r ↦ some (
      Notice.initbsd mpc.mpc_name policy_version mpc.mpc_ops mac_policy_ops_slots sizeof_ops
      ∷ Notice.selftest r
      ∷ [])
]

unfoldable pub policy_destroy : Conf → List Notice
policy_destroy mpc = Notice.destroy mpc.mpc_name ∷ []

-- MAC_POLICY_OPS_SLOTS is the number of members that `struct mac_policy_ops` has.
slots_lem : (length ops_slots ≡ mac_policy_ops_slots) × (sizeof_ops ≡ mac_policy_ops_slots * 8)
unfolding ops_slots sizeof_ops
slots_lem = (refl, refl)

-- `sebsd_policy_initbsd` prints the name of the descriptor that it is given, the version, the
-- address of the ops vector, and 335 slots in the 2680 bytes that the vector has; the self-test
-- that it runs succeeds and its line follows. The conditions are those of the self-test.
pub policy_initbsd_lem :
    (l : Loader) (x : Encoder)
    → Layout l
    → Encodes l x
    → AreConstants l x
    → (info : MachoInfo) (mpc : Conf)
    → policy_initbsd l x info mpc
      ≡ some (
          Notice.initbsd mpc.mpc_name "0.0.1" mpc.mpc_ops 335 2680
          ∷ Notice.selftest (Report.report (expected l x))
          ∷ [])
unfolding policy_initbsd
policy_initbsd_lem l x y e c info mpc =
    rw (policy_initbsd, macho_selftest_lem l x y e c info, slots_lem.1) refl
