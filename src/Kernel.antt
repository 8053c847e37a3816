-- ===== src/Kernel.antt =====
-- The kernel as the hooks see it: the public functions that they call, with what those return as
-- parameters, and a writer of the calls that a hook makes. Code outside the repository is a field
-- of `Kernel`; an `int` is its 32-bit pattern; a name is its bytes.
use sedarwin.Prelude.{ℕ, List, [], ◌∷◌, ◌++◌, Option, none, some, ◌≡◌, length, if◌then◌else◌, Bool}

-- `kauth_cred_t`, `proc_t`, `proc_ident_t` and `thread_t` are opaque: numbers.
pub record Kernel : Type 0 where
  pub current_proc : ℕ
  pub current_thread : ℕ
  pub proc_pid : ℕ → ℕ
  -- what `proc_selfname` and `proc_name` leave in a buffer of the given size
  pub proc_selfname : ℕ → List ℕ
  pub proc_name : ℕ → ℕ → List ℕ
  pub proc_find_ident : ℕ → Option ℕ
  pub kauth_cred_getuid : ℕ → ℕ
  -- what a local array of the given size holds before it is written
  pub local_array : ℕ → List ℕ
  pub length-local_array : (n : ℕ) → length (local_array n) ≡ n
  -- the code-signing bits of `kern/cs_blobs.h`
  pub cs_valid : ℕ
  pub cs_adhoc : ℕ
  pub cs_signed : ℕ
  pub cs_hard : ℕ
  pub cs_kill : ℕ
  pub cs_runtime : ℕ
  pub cs_restrict : ℕ
  pub cs_debugged : ℕ
  pub cs_platform_binary : ℕ
  pub cs_installer : ℕ
  -- MAXCOMLEN, the signal numbers and the device number's halves
  pub maxcomlen : ℕ
  pub sigkill : ℕ
  pub sigsegv : ℕ
  pub sigbus : ℕ
  pub sigill : ℕ
  pub sigabrt : ℕ
  pub sigterm : ℕ
  pub major : ℕ → ℕ
  pub minor : ℕ → ℕ

-- One line that the policy prints, with the values of its format.
pub data Line : Type 0 where
  vnode_open : (pname : List ℕ) (pid uid acc_mode : ℕ) → Line
  vnode_component : (op : List ℕ) (pname : List ℕ) (pid : ℕ) (name : List ℕ) (uid : ℕ) → Line
  vnode_rename : (pname : List ℕ) (pid : ℕ) (from to : List ℕ) (uid : ℕ) → Line
  lookup : (n : ℕ) (pname : List ℕ) (pid : ℕ) (name : List ℕ) (op flags dvp label thread : ℕ) → Line
  mmap : (pname : List ℕ) (pid prot uid : ℕ) → Line
  library_validation : (pname : List ℕ) (pid : ℕ) → Line
  signal : (iname : List ℕ) (ipid : ℕ) (tname : List ℕ) (tpid signum uid : ℕ) → Line
  fork : (pname : List ℕ) (pid ppid uid : ℕ) → Line
  exit : (pname : List ℕ) (pid : ℕ) → Line
  socket_create : (pname : List ℕ) (pid domain kind protocol : ℕ) → Line
  connect : (pname : List ℕ) (pid : ℕ) (host : List ℕ) (uid : ℕ) → Line
  listen : (pname : List ℕ) (pid uid : ℕ) → Line
  pty_grant : (pname : List ℕ) (pid major minor : ℕ) → Line
  exec : (pname : List ℕ) (pid uid flags : ℕ) (sig : List ℕ) → Line
  exec_complete : (pname : List ℕ) (pid : ℕ) → Line

-- A call into the kernel.
pub data Call : Type 0 where
  current_thread : Call
  proc_selfname : (size : ℕ) → Call
  proc_pid : (p : ℕ) → Call
  proc_name : (pid size : ℕ) → Call
  proc_find_ident : (ident : ℕ) → Call
  proc_rele : (p : ℕ) → Call
  kauth_cred_getuid : (cred : ℕ) → Call
  printf : Line → Call

-- A result with the calls made on the way, or a memory fault.
abbrev pub Hooked : Type 0 → Type 0
Hooked A = Option (A × List Call)

abbrev pub pure : {A : Type 0} → A → Hooked A
pure a = some (a, [])

abbrev pub with_calls : {A : Type 0} → List Call → Hooked A → Hooked A
with_calls cs none = none
with_calls cs (some (b, ds)) = some (b, cs ++ ds)

infixl 5 ◌>>=◌ ◌>>◌
abbrev pub ◌>>=◌ : {A B : Type 0} → Hooked A → (A → Hooked B) → Hooked B
none >>= f = none
some (a, cs) >>= f = with_calls cs (f a)

abbrev pub ◌>>◌ : {B : Type 0} → Hooked (Unit {0}) → Hooked B → Hooked B
m >> k = m >>= λ _. k

abbrev pub call : Call → Hooked (Unit {0})
call c = some (tt, c ∷ [])

abbrev pub lift : {A : Type 0} → Option A → Hooked A
lift none = none
lift (some a) = some (a, [])

-- `if (b) { m }`
abbrev pub when : Bool → Hooked (Unit {0}) → Hooked (Unit {0})
when b m = if b then m else pure tt
