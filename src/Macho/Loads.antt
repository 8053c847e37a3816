-- ===== src/Macho/Loads.antt =====
-- Loads inside the buffer, and the walk over the load commands of kext/MachO.c.
use sedarwin.Prelude.{
  ℕ, zero, suc, ◌+◌, ◌*◌, ◌<◌, ◌≤◌, Bool, false, List, [], ◌∷◌, some, ◌≡◌, ◌∙◌, ap, ◌==◌, ◌||◌,
  if◌then◌else◌, get_elem?, length, arith, dec_lt, lt→ltb, le→ltb, refl,
}
use native.Mathlib.Nat.{mul-suc}
use sedarwin.Macho.{Loader, load32, walk}

-- Every field that the parser reads stands inside its structure.
pub record Layout (l : Loader) : Type 0 where
  pub magic_in : l.mh_magic + 4 ≤ l.sizeof_mach_header_64
  pub cputype_in : l.mh_cputype + 4 ≤ l.sizeof_mach_header_64
  pub cpusubtype_in : l.mh_cpusubtype + 4 ≤ l.sizeof_mach_header_64
  pub ncmds_in : l.mh_ncmds + 4 ≤ l.sizeof_mach_header_64
  pub cmd_in : l.lc_cmd + 4 ≤ l.sizeof_load_command
  pub cmdsize_in : l.lc_cmdsize + 4 ≤ l.sizeof_load_command
  pub fat_magic_in : l.fh_magic + 4 ≤ l.sizeof_fat_header
  pub nfat_arch_in : l.fh_nfat_arch + 4 ≤ l.sizeof_fat_header
  pub slice_type_in : l.fa_cputype + 4 ≤ l.sizeof_fat_arch
  pub slice_subtype_in : l.fa_cpusubtype + 4 ≤ l.sizeof_fat_arch

get_elem?-some : (xs : List ℕ) (i : ℕ) → i < length xs → (x : ℕ) × (get_elem? xs i ≡ some x)
get_elem?-some [] i h = absurd (omega arith)
get_elem?-some (x ∷ xs) zero h = (x, refl)
get_elem?-some (x ∷ xs) (suc i) h = get_elem?-some xs i (omega arith)

-- A load inside the buffer has a value.
pub load32-some :
    (image : List ℕ) (off : ℕ) → off + 4 ≤ length image → (v : ℕ) × (load32 image off ≡ some v)
unfolding load32
load32-some image off h =
    let (b0, e0) = get_elem?-some image off (omega arith) in
    let (b1, e1) = get_elem?-some image (off + 1) (omega arith) in
    let (b2, e2) = get_elem?-some image (off + 2) (omega arith) in
    let (b3, e3) = get_elem?-some image (off + 3) (omega arith) in
    (b0 + 0x100 * b1 + 0x1_0000 * b2 + 0x100_0000 * b3, rw (e0, e1, e2, e3) refl)

abbrev pub has : ℕ → List ℕ → Bool
has c [] = false
has c (x ∷ xs) = (x == c) || has c xs

module _ (l : Loader) (image : List ℕ) (len : ℕ) where
  open l use {sizeof_load_command, lc_cmd, lc_cmdsize, lc_code_signature}

  -- No whole load command stands at `off`.
  pub data Ends (off : ℕ) : Type 0 where
    cut : len < off + sizeof_load_command → Ends off
    short :
        (size : ℕ)
        → load32 image (off + lc_cmdsize) ≡ some size
        → size < sizeof_load_command
        → Ends off
    long : (size : ℕ) → load32 image (off + lc_cmdsize) ≡ some size → len < off + size → Ends off

  -- `Chain n off cmds`: from `off` on, at most `n` load commands are `cmds`, each of them whole and
  -- each at the end of the one before.
  pub data Chain : (n off : ℕ) → List ℕ → Type 0 where
    counted : (off : ℕ) → Chain zero off []
    ends : (n off : ℕ) → Ends off → Chain (suc n) off []
    next :
        (n off size cmd : ℕ) (cmds : List ℕ)
        → load32 image (off + lc_cmdsize) ≡ some size
        → sizeof_load_command ≤ size
        → off + size ≤ len
        → load32 image (off + lc_cmd) ≡ some cmd
        → Chain n (off + size) cmds
        → Chain (suc n) off (cmd ∷ cmds)

  -- The commands of a chain are disjoint parts of the buffer.
  pub Chain_bound :
      {n off : ℕ} {cmds : List ℕ}
      → Chain n off cmds
      → off ≤ len
      → off + sizeof_load_command * length cmds ≤ len
  Chain_bound (Chain.counted off) h = omega arith
  Chain_bound (Chain.ends n off e) h = omega arith
  Chain_bound (Chain.next n off size cmd cmds s a b c rest) h =
      omega (arith, mul-suc sizeof_load_command (length cmds), Chain_bound rest b)

  pub Chain_count : {n off : ℕ} {cmds : List ℕ} → Chain n off cmds → length cmds ≤ n
  Chain_count (Chain.counted off) = omega arith
  Chain_count (Chain.ends n off e) = omega arith
  Chain_count (Chain.next n off size cmd cmds s a b c rest) = omega (arith, Chain_count rest)

  -- `m_codesign` after the walk.
  abbrev pub signed : List ℕ → ℕ → ℕ
  signed cmds flag = if has lc_code_signature cmds then 1 else flag

  -- The walk visits the commands of a chain.
  pub record Walked (n off flag : ℕ) : Type 0 where
    pub cmds : List ℕ
    pub chain : Chain n off cmds
    pub runs : walk l image len n off flag ≡ some (signed cmds flag)

  signed-signed :
      (cmd : ℕ) (cmds : List ℕ) (flag : ℕ)
      → signed cmds (if cmd == lc_code_signature then 1 else flag) ≡ signed (cmd ∷ cmds) flag
  signed-signed cmd cmds flag = ground arith

  pub walk-Chain : Layout l → len ≤ length image → (n off flag : ℕ) → Walked n off flag
  unfolding walk
  walk-Chain y h zero off flag = record { cmds = []; chain = Chain.counted off; runs = refl }
  walk-Chain y h (suc n) off flag = elim (dec_lt len (off + sizeof_load_command)) [
    | yes out ↦ record {
      cmds = [];
      chain = Chain.ends n off (Ends.cut out);
      runs = rw (lt→ltb _ _ out) refl;
    }
    | no inside ↦
        let (size, e) = load32-some image (off + lc_cmdsize) (omega (arith, y.cmdsize_in)) in
        let (cmd, f) = load32-some image (off + lc_cmd) (omega (arith, y.cmd_in)) in
        elim (dec_lt size sizeof_load_command) [
          | yes little ↦ record {
            cmds = [];
            chain = Chain.ends n off (Ends.short size e little);
            runs =
                rw
                  (
                    le→ltb len (off + sizeof_load_command) (omega arith),
                    e,
                    lt→ltb size sizeof_load_command little,
                  )
                  refl;
          }
          | no enough ↦ elim (dec_lt len (off + size)) [
            | yes past ↦ record {
              cmds = [];
              chain = Chain.ends n off (Ends.long size e past);
              runs =
                  rw
                    (
                      le→ltb len (off + sizeof_load_command) (omega arith),
                      e,
                      le→ltb size sizeof_load_command (omega arith),
                      lt→ltb len (off + size) past,
                    )
                    refl;
            }
            | no whole ↦
                let rest =
                  walk-Chain y h n (off + size) (if cmd == lc_code_signature then 1 else flag) in
                record {
                  cmds = cmd ∷ rest.cmds;
                  chain =
                      Chain.next n off size cmd rest.cmds e (omega arith) (omega arith) f
                        rest.chain;
                  runs =
                      rw
                        (
                          le→ltb len (off + sizeof_load_command) (omega arith),
                          e,
                          le→ltb size sizeof_load_command (omega arith),
                          le→ltb len (off + size) (omega arith),
                          f,
                        )
                        (rest.runs ∙ ap some (signed-signed cmd rest.cmds flag));
                }
          ]
        ]
  ]

  -- The number of commands in the header does not bound the walk, the buffer does: whatever
  -- `ncmds` is, the walk visits the whole load commands that stand one behind the other, at most
  -- `ncmds` of them, and they fit in the buffer beside one another.
  pub walk_bound :
      Layout l
      → len ≤ length image
      → (ncmds off flag : ℕ) → off ≤ len
      → (cmds : List ℕ) × Chain ncmds off cmds
        × (walk l image len ncmds off flag ≡ some (signed cmds flag))
        × (length cmds ≤ ncmds)
        × (off + l.sizeof_load_command * length cmds ≤ len)
  walk_bound y h ncmds off flag inside =
      let w = walk-Chain y h ncmds off flag in
      (w.cmds, w.chain, w.runs, Chain_count w.chain, Chain_bound w.chain inside)
