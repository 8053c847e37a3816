-- ===== src/Trace.antt =====
-- The inline helpers of kext/kernel.h: the trace gate, the identification of the subject, and the
-- bounded copy of a lookup component.
pub mod Component
use Prim.Native.String.{String}
use Prim.Native.Char.{code}
use sedarwin.Prelude.{
  ℕ, ◌+◌, ◌-◌, ◌%◌, ◌^◌, Bool, List, [], ◌∷◌, Option, none, some, not, leb, ◌==◌, if◌then◌else◌,
  map,
}
use sedarwin.Bytes.{memcpy, store, strlcpy}
use sedarwin.Kernel.{Kernel, Line, Call, Hooked, pure, ◌>>=◌, ◌>>◌, call, lift, when}

-- The bytes of an ASCII literal.
abbrev pub codes : String → List ℕ
codes String.[] = []
codes (String.◌∷◌ c s) = code c ∷ codes s

-- What a hook reads in `sebsd_trace_enabled`, at the gate and again where it would print.
pub record Flag : Type 0 where
  pub at_gate : ℕ
  pub at_line : ℕ

-- No write changes it between the two.
abbrev pub unchanged : ℕ → Flag
unchanged v = record { at_gate = v; at_line = v }

-- `sebsd_tracing()`
unfoldable pub tracing : Flag → Bool
tracing trace = not (trace.at_gate == 0)

-- `sebsd_log_debug(...)`: the arguments are evaluated only if the line is printed.
unfoldable pub log_debug : Flag → Hooked Line → Hooked (Unit {0})
log_debug trace line = if trace.at_line == 0 then pure tt else do l ← line; call (Call.printf l)

module _ (k : Kernel) where
  open k use {current_proc}

  -- `proc_pid(p)`
  unfoldable pub pid_of : ℕ → Hooked ℕ
  pid_of p = do call (Call.proc_pid p); pure (k.proc_pid p)

  -- `kauth_cred_getuid(cred)`
  unfoldable pub uid_of : ℕ → Hooked ℕ
  uid_of cred = do call (Call.kauth_cred_getuid cred); pure (k.kauth_cred_getuid cred)

  unfoldable pub cur_pid : Hooked ℕ
  unfolding pid_of
  cur_pid = pid_of current_proc

  -- The string that is left in a buffer of `size` bytes.
  unfoldable pub cur_name : ℕ → Hooked (List ℕ)
  cur_name size = do call (Call.proc_selfname size); pure (k.proc_selfname size)

  unfoldable pub proc_name : ℕ → ℕ → Hooked (List ℕ)
  proc_name pid size = do call (Call.proc_name pid size); pure (k.proc_name pid size)

abbrev pub trace_name_max : ℕ
trace_name_max = 64

-- `struct componentname`, as far as the hooks read it. `cn_nameptr` is NULL or points to readable
-- bytes; `cn_namelen` is the 64-bit pattern of a `long`.
pub record ComponentName : Type 0 where
  pub cn_nameptr : Option (List ℕ)
  pub cn_namelen : ℕ
  pub cn_nameiop : ℕ
  pub cn_flags : ℕ

abbrev pub none_name : List ℕ
none_name = codes "<none>"

-- The bytes that are copied: `len - 1` wraps at 0, as `size_t` does.
unfoldable pub copy_length : ℕ → ℕ → ℕ
copy_length namelen len = if leb len namelen then (len + 2 ^ 64 - 1) % 2 ^ 64 else namelen

-- The copy of a component's name into `buf`, with the NUL behind it.
unfoldable pub copy_name : List ℕ → ℕ → List ℕ → ℕ → Option (List ℕ)
copy_name name namelen buf len = elim (memcpy buf name (copy_length namelen len)) [
  | none ↦ none
  | some copied ↦ store copied (copy_length namelen len) 0
]

unfoldable pub pointed_name : Option (List ℕ) → ℕ → List ℕ → ℕ → Option (List ℕ)
unfolding copy_name copy_length
pointed_name none namelen buf len = strlcpy buf none_name len
pointed_name (some name) namelen buf len = copy_name name namelen buf len

-- `sebsd_cnp_name(cnp, buf, len)`: the buffer that it leaves; a NULL `cnp` is `none`.
unfoldable pub cnp_name : Option ComponentName → List ℕ → ℕ → Option (List ℕ)
unfolding pointed_name
cnp_name none buf len = strlcpy buf none_name len
cnp_name (some cnp) buf len = pointed_name cnp.cn_nameptr cnp.cn_namelen buf len
