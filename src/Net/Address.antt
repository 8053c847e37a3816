-- ===== src/Net/Address.antt =====
-- The peer's address is printed whole, and can be read back from what is printed.
use mathlib.Core.Option
use sedarwin.Prelude.{
  ℕ, ◌+◌, ◌*◌, ◌≤◌, ◌<◌, ◌≡◌, ◌∙◌, ap, refl, List, [], ◌∷◌, ◌++◌, none, some, arith, length, take,
  length-take,
}
use sedarwin.Bytes.Laws.{IsText, IsText-append}
use sedarwin.Trace.{codes}
use sedarwin.Net.{
  decimal, dotted, grouped, SockAddr, inet, inet6, unix, other, host_text, host_size,
}
use sedarwin.Net.Digits.{read_fields, decimal_bounds}
use sedarwin.Bytes.Laws.{AreBytes, AreBytes-take}
use sedarwin.Net.Texts.{
  dotted_bounds, read_dotted, read_bytes_lem, grouped_bounds, read_hex, read_hex-grouped,
}

-- The address holds as many bytes as its family has.
abbrev pub IsAddress : SockAddr → Type 0
IsAddress (inet addr high low) = (4 ≤ length addr) × AreBytes addr × (high < 256) × (low < 256)
IsAddress (inet6 addr) = (16 ≤ length addr) × AreBytes addr
IsAddress unix = Unit {0}
IsAddress (other family) = family < 256

-- The address is never cut: what `sebsd_socket_check_connect` formats is a text without a NUL that
-- leaves room for one in `host`, for an address of any family that holds the bytes which its
-- family reads.
pub host_text_bounds :
    (addr : SockAddr)
    → IsAddress addr
    → (text : List ℕ) × (host_text addr ≡ some text) × IsText text × (length text < host_size)
unfolding host_text
host_text_bounds (inet addr high low) h =
    let (short, text) = dotted_bounds (take 4 addr) (high * 256 + low) in
    (
      dotted (take 4 addr) (high * 256 + low),
      ap (Option.map (λ a. dotted a (high * 256 + low))) (read_bytes_lem 4 addr h.0),
      text,
      omega (arith, length-take 4 addr),
    )
host_text_bounds (inet6 addr) h =
    let (short, text) = grouped_bounds (take 16 addr) (omega (arith, length-take 16 addr)) in
    (
      grouped (take 16 addr),
      ap (Option.map grouped) (read_bytes_lem 16 addr h.0),
      text,
      omega (arith, length-take 16 addr),
    )
host_text_bounds unix h = (codes "<unix>", refl, ground arith, omega arith)
host_text_bounds (other family) h =
    let (short, text) = decimal_bounds family in
    (
      codes "af=" ++ decimal family,
      refl,
      IsText-append (codes "af=") (decimal family) (ground arith) text,
      omega arith,
    )

-- The printed form of an AF_INET peer gives back its four bytes and its port, read from network
-- order.
pub inet_roundtrip :
    (addr : List ℕ) (high low : ℕ) {text : List ℕ}
    → IsAddress (inet addr high low)
    → host_text (inet addr high low) ≡ some text
    → read_fields text 0 ≡ take 4 addr ++ ((high * 256 + low) ∷ [])
unfolding host_text
inet_roundtrip addr high low {text} h e =
    let made = ap (Option.map (λ a. dotted a (high * 256 + low))) (read_bytes_lem 4 addr h.0) in
    let same : text ≡ dotted (take 4 addr) (high * 256 + low) = cc (made) in
    ap (λ t. read_fields t 0) same
    ∙ read_dotted (take 4 addr) (high * 256 + low) (AreBytes-take 4 addr h.1) (omega arith)

-- The printed form of an AF_INET6 peer gives back its sixteen bytes.
pub inet6_roundtrip :
    (addr : List ℕ) {text : List ℕ}
    → IsAddress (inet6 addr)
    → host_text (inet6 addr) ≡ some text
    → read_hex text none ≡ take 16 addr
unfolding host_text
inet6_roundtrip addr {text} h e =
    let made = ap (Option.map grouped) (read_bytes_lem 16 addr h.0) in
    let same : text ≡ grouped (take 16 addr) = cc (made) in
    ap (λ t. read_hex t none) same
    ∙ read_hex-grouped (take 16 addr) (omega (arith, length-take 16 addr))
        (AreBytes-take 16 addr h.1)
