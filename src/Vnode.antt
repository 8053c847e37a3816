-- ===== src/Vnode.antt =====
-- The vnode hooks of kext/vnode.c that keep no state of their own (`sebsd_vnode_check_lookup` is in
-- Lookup.antt). Arguments that a hook casts to void are left out.
use sedarwin.Prelude.{ℕ, ◌+◌, List, Option}
use sedarwin.Bytes.{c_string}
use sedarwin.Kernel.{Kernel, Line, Hooked, pure, ◌>>=◌, ◌>>◌, lift, when}
use sedarwin.Trace.{
  Flag, codes, tracing, log_debug, cur_name, cur_pid, uid_of, trace_name_max, ComponentName,
  cnp_name,
}

module _ (k : Kernel) where
  open k use {maxcomlen, local_array}

  unfoldable pub trace_open : Flag → ℕ → ℕ → Hooked (Unit {0})
  trace_open trace cred acc_mode = do
    pname ← cur_name k (maxcomlen + 1)
    log_debug trace
        (do pid ← cur_pid k; uid ← uid_of k cred; pure (Line.vnode_open pname pid uid acc_mode))

  unfoldable pub vnode_check_open : Flag → ℕ → ℕ → Hooked ℕ
  unfolding trace_open
  vnode_check_open trace cred acc_mode = do
    when (tracing trace) (trace_open trace cred acc_mode)
    pure 0

  -- `char name[SEBSD_TRACE_NAME_MAX]` after `sebsd_cnp_name(cnp, name, sizeof(name))`
  unfoldable pub traced_name : Option ComponentName → Hooked (List ℕ)
  traced_name cnp = lift (cnp_name cnp (local_array trace_name_max) trace_name_max)

  unfoldable pub trace_component : Flag → List ℕ → ℕ → Option ComponentName → Hooked (Unit {0})
  unfolding traced_name
  trace_component trace op cred cnp = do
    pname ← cur_name k (maxcomlen + 1)
    name ← traced_name cnp
    log_debug trace (do
      pid ← cur_pid k
      uid ← uid_of k cred
      pure (Line.vnode_component op pname pid (c_string name) uid))

  unfoldable pub vnode_check_create : Flag → ℕ → Option ComponentName → Hooked ℕ
  unfolding trace_component
  vnode_check_create trace cred cnp = do
    when (tracing trace) (trace_component trace (codes "create") cred cnp)
    pure 0

  unfoldable pub vnode_check_unlink : Flag → ℕ → Option ComponentName → Hooked ℕ
  unfolding trace_component
  vnode_check_unlink trace cred cnp = do
    when (tracing trace) (trace_component trace (codes "unlink") cred cnp)
    pure 0

  unfoldable pub trace_rename :
      Flag → ℕ → Option ComponentName → Option ComponentName → Hooked (Unit {0})
  unfolding traced_name
  trace_rename trace cred fcnp tcnp = do
    pname ← cur_name k (maxcomlen + 1)
    from ← traced_name fcnp
    to ← traced_name tcnp
    log_debug trace (do
      pid ← cur_pid k
      uid ← uid_of k cred
      pure (Line.vnode_rename pname pid (c_string from) (c_string to) uid))

  unfoldable pub vnode_check_rename :
      Flag → ℕ → Option ComponentName → Option ComponentName → Hooked ℕ
  unfolding trace_rename
  vnode_check_rename trace cred fcnp tcnp = do
    when (tracing trace) (trace_rename trace cred fcnp tcnp)
    pure 0

-- These five only return.
unfoldable pub vnode_check_readlink : Hooked ℕ
vnode_check_readlink = pure 0

unfoldable pub vnode_check_getattr : Hooked ℕ
vnode_check_getattr = pure 0

unfoldable pub vnode_check_setattrlist : Hooked ℕ
vnode_check_setattrlist = pure 0

unfoldable pub vnode_label_associate_extattr : Hooked ℕ
vnode_label_associate_extattr = pure 0

unfoldable pub vnode_label_copy : Hooked (Unit {0})
vnode_label_copy = pure tt
