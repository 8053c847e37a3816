-- ===== src/Tests/Buffers.antt =====
-- The buffers of the trace lines, and the offsets of the ops vector, at concrete inputs.
use sedarwin.Prelude.{
  ℕ, ◌+◌, ◌%◌, ◌<◌, ◌≤◌, List, [], ◌∷◌, some, ◌≡◌, arith, length, take, replicate,
}
use sedarwin.Abi.{Member, offset, sizeof_ops, asserted_size, guarded}
use sedarwin.Abi.Offsets.{offset_lem, offset_bounds}
use sedarwin.Bytes.Laws.{Named, IsText}
use sedarwin.Net.{SockAddr, host_text, host_size}
use sedarwin.Net.Peer.{Peer, read_peer, host_text_roundtrip}
use sedarwin.Spawn.{csflag_bits, csflag_table}
use sedarwin.Spawn.Flags.{csflag_bits-Named}
use sedarwin.Bytes.{c_string}
use sedarwin.Spawn.Decoded.{Tells, csflag_bits-Tells}
use sedarwin.Spawn.Letters.{letters, joined}
use sedarwin.Tests.Setting.{kernel}

abbrev room : List ℕ
room = replicate 8 1

-- Room for four letters only.
csflag_bits-Named_example :
    Named room
      (take 7 (joined (letters 0x3000_0303 (csflag_table kernel))))
      8
      (csflag_bits kernel 0x3000_0303 room 8)
csflag_bits-Named_example = csflag_bits-Named kernel 0x3000_0303 room 8 (omega arith) (omega arith)

csflag_bits-Tells_example :
    (out : List ℕ) × (csflag_bits kernel 0x3000_0303 (replicate 32 1) 32 ≡ some out)
    × Tells 0x3000_0303 (c_string out) (csflag_table kernel)
csflag_bits-Tells_example = csflag_bits-Tells kernel 0x3000_0303 (replicate 32 1) (omega arith)

abbrev loopback6 : List ℕ
loopback6 = 0xfe ∷ 0x80 ∷ 0 ∷ 0 ∷ 0 ∷ 0 ∷ 0 ∷ 0 ∷ 0 ∷ 0 ∷ 0 ∷ 0 ∷ 0 ∷ 0 ∷ 0 ∷ 1 ∷ []

host_text_roundtrip_example :
    (text : List ℕ) × (host_text (SockAddr.inet6 loopback6) ≡ some text)
    × IsText text
    × (length text < host_size)
    × (read_peer text ≡ Peer.ipv6 loopback6)
host_text_roundtrip_example = host_text_roundtrip (SockAddr.inet6 loopback6) (ground arith)

offset_bounds_example :
    (sizeof_ops ≡ asserted_size)
    × ((g : ℕ) → guarded Member.mpo_policy_init ≡ some g → 0x398 ≡ g)
    × (0x398 + 8 ≤ sizeof_ops)
    × (0x398 % 8 ≡ 0)
    × (offset Member.mpo_policy_initbsd ≡ some 0x398
        → Member.mpo_policy_init ≡ Member.mpo_policy_initbsd)
offset_bounds_example =
    offset_bounds Member.mpo_policy_init Member.mpo_policy_initbsd
      (offset_lem Member.mpo_policy_init)
