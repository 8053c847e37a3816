-- ===== src/Hooks/Subjects.antt =====
-- The parts of the traced hooks: names, identities and addresses.
use sedarwin.Prelude.{
  is_among, ℕ, ◌+◌, ◌-◌, take, ◌≤◌, true, false, List, [], ◌∷◌, Option, none, some, ◌≡◌, ◌∙◌, refl,
  ap, arith, inl, inr, Option-cases, ◌==◌, length, length-set, set, take-all, ◌++◌,
}
use sedarwin.Kernel.{Kernel, Call, Line, Hooked, with_calls}
use sedarwin.Bytes.{store, strlcpy}
use sedarwin.Bytes.Laws.{Named, strlcpy-Named, store_lem, IsText}
use sedarwin.Trace.{
  Flag, tracing, log_debug, cur_name, cur_pid, uid_of, pid_of, proc_name, ComponentName, cnp_name,
  codes,
}
use sedarwin.Trace.Component.{IsReadable, shown, cnp_name-Named}
use sedarwin.Proc.{watched, unnamed, found, ident_name, minus_one}
use sedarwin.Net.{SockAddr, trace_connect, host_text}
use sedarwin.Net.Address.{IsAddress, host_text_bounds}
use sedarwin.Hooks.{connect, handle, Answer}
use sedarwin.Hooks.Calls.{said, references}
use sedarwin.Hooks.Owed.{fatal_signals, identity, connect_line}

module _ (k : Kernel) where
  open k use {maxcomlen, local_array, length-local_array, current_proc}

  -- The test that leaves the hook early misses just these signals.
  pub watched_lem : (signum : ℕ) → watched k signum ≡ is_among signum (fatal_signals k)
  unfolding watched
  watched_lem signum = ground arith

  -- What is called for a line about the running process and a credential.
  abbrev pub self_calls : ℕ → Line → List Call
  self_calls cred line =
      Call.proc_selfname (maxcomlen + 1)
      ∷ Call.proc_pid current_proc
      ∷ Call.kauth_cred_getuid cred
      ∷ Call.printf line
      ∷ []

  -- The text of a peer, as it is written into `host[64]` after the NUL.
  record Written (addr : SockAddr) : Type 0 where
    text : List ℕ
    formatted : host_text addr ≡ some text
    base : List ℕ
    emptied : store (local_array 64) 0 0 ≡ some base
    named : Named base (take 63 text) 64 (strlcpy base text 64)
    whole : take 63 text ≡ text

  address-Written : (addr : SockAddr) → IsAddress addr → Written addr
  address-Written addr h =
      let (text, formatted, is_text, short) = host_text_bounds addr h in
      let base : List ℕ = set (local_array 64) 0 0 in
      let room : 64 ≤ length base =
        omega (arith, length-local_array 64, length-set (local_array 64) 0 0) in
      record {
        text = text;
        formatted = formatted;
        base = base;
        emptied = store_lem (local_array 64) 0 0 (omega (arith, length-local_array 64));
        named = strlcpy-Named text base 64 is_text (omega arith) room;
        whole = take-all 63 text (omega arith);
      }

  -- While tracing is on, a connection to any address prints one line, with the whole address.
  pub handle_connect :
      (trace : Flag)
      → (trace.at_gate == 0) ≡ false
      → (trace.at_line == 0) ≡ false
      → (cred : ℕ) (addr : SockAddr) {text : List ℕ} → IsAddress addr
      → host_text addr ≡ some text
      → handle k trace (connect cred (some addr))
        ≡ some (Answer.returned 0, self_calls cred (connect_line k cred text))
  unfolding handle trace_connect tracing log_debug cur_name cur_pid uid_of pid_of
  handle_connect trace on loud cred addr {text} h e =
      let w = address-Written addr h in
      let same : w.text ≡ text = cc (e, w.formatted) in
      let whole = w.named.prints ∙ w.whole ∙ same in
      rw (on, w.emptied, w.formatted, w.named.written, loud) (rw whole refl)

  -- If it has been turned off after the gate, it prints none.
  pub handle_connect_hushed :
      (trace : Flag)
      → (trace.at_gate == 0) ≡ false
      → (trace.at_line == 0) ≡ true
      → (cred : ℕ) (addr : SockAddr) → IsAddress addr
      → handle k trace (connect cred (some addr))
        ≡ some (Answer.returned 0, Call.proc_selfname (maxcomlen + 1) ∷ [])
  unfolding handle trace_connect tracing log_debug cur_name
  handle_connect_hushed trace on hushed cred addr h =
      let w = address-Written addr h in
      rw (on, w.emptied, w.formatted, w.named.written, hushed) refl

  abbrev pub signal_calls : ℕ → List Call → List Call → Line → List Call
  signal_calls cred from to line =
      from ++ (to ++ (Call.kauth_cred_getuid cred ∷ Call.printf line ∷ []))

  pub name-Named :
      (cnp : Option ComponentName)
      → IsReadable cnp 64
      → Named (local_array 64) (shown cnp 64) 64 (cnp_name cnp (local_array 64) 64)
  name-Named cnp s =
      cnp_name-Named cnp (local_array 64) 64 (omega arith) (omega (arith, length-local_array 64))
        (omega arith) s

  -- A `proc_ident_t` is resolved to `who`: the calls print nothing and release what they take.
  pub record Resolved (who : List ℕ × ℕ) (o : Hooked (List ℕ × ℕ)) : Type 0 where
    pub calls : List Call
    pub runs : o ≡ some (who, calls)
    pub quiet : (ds : List Call) → said (calls ++ ds) ≡ said ds
    pub level : (ds : List Call) (n : ℕ) → references k (calls ++ ds) n ≡ references k ds n

  unnamed-Resolved :
      (text : List ℕ)
      → IsText text
      → Resolved (take maxcomlen text, minus_one) (unnamed k text (maxcomlen + 1))
  unfolding unnamed
  unnamed-Resolved text t =
      let named =
        strlcpy-Named text (local_array (maxcomlen + 1)) (maxcomlen + 1) t (omega arith)
          (omega (arith, length-local_array (maxcomlen + 1))) in
      let room : maxcomlen + 1 - 1 ≡ maxcomlen = omega arith in
      record {
        calls = [];
        runs = rw (named.written, named.prints, room) refl;
        quiet = λ ds. refl;
        level = λ ds n. refl;
      }

  pub ident-Resolved :
      (ident : Option ℕ) → Resolved (identity k ident) (ident_name k ident (maxcomlen + 1))
  unfolding ident_name found pid_of proc_name
  ident-Resolved none = unnamed-Resolved (codes "<kernel>") (ground arith)
  ident-Resolved (some id) = elim (Option-cases (k.proc_find_ident id)) [
    | inl gone ↦
        let r = unnamed-Resolved (codes "<exited>") (ground arith) in
        record {
          calls = Call.proc_find_ident id ∷ r.calls;
          runs = rw gone (ap (with_calls (Call.proc_find_ident id ∷ [])) r.runs);
          quiet = r.quiet;
          level = λ ds n. rw gone (r.level ds n);
        }
    | inr (p, there) ↦ record {
      calls =
          Call.proc_find_ident id
          ∷ Call.proc_pid p
          ∷ Call.proc_name (k.proc_pid p) (maxcomlen + 1)
          ∷ Call.proc_rele p
          ∷ [];
      runs = rw there refl;
      quiet = λ ds. refl;
      level = λ ds n. rw there refl;
    }
  ]
