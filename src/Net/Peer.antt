-- ===== src/Net/Peer.antt =====
-- Reading a printed peer of kext/net.c back, whatever its family is.
use mathlib.Core.Option
use sedarwin.Prelude.{
  ℕ, zero, suc, ◌+◌, ◌*◌, ◌/◌, ◌%◌, ◌≤◌, ◌<◌, ◌≡◌, ◌∙◌, ap, refl, true, false, List, [], ◌∷◌, ◌++◌,
  none, some, arith, length, take, length-take, ltb, leb, ◌==◌, if◌then◌else◌, inl, inr, Bool-cases,
  sym, subst,
}
use sedarwin.Trace.{codes}
use sedarwin.Net.{
  decimal, decimal_fuel, dotted, grouped, colon_pairs, hex_byte, SockAddr, inet, inet6, unix, other,
  host_text, host_size,
}
use sedarwin.Bytes.Laws.{IsText}
use sedarwin.Net.Digits.{is_digit, read_fields, read_fields-end, decimal_bounds}
use sedarwin.Net.Texts.{read_hex, pairs_of, dotted_bounds, read_bytes_lem}
use sedarwin.Net.Address.{IsAddress, host_text_bounds, inet_roundtrip, inet6_roundtrip}

-- What can be told of a peer: its family, and the numbers that it is printed with.
pub data Peer : Type 0 where
  ipv4 : (bytes_port : List ℕ) → Peer
  ipv6 : (bytes : List ℕ) → Peer
  local : Peer
  family : (number : List ℕ) → Peer

-- A text too long for an AF_INET peer is an AF_INET6 one; the others begin with a digit, a `<` or an
-- `a`.
read_named : List ℕ → Peer
read_named (a ∷ b ∷ rest) = if b == b'=' then Peer.family (read_fields rest 0) else Peer.local
read_named _ = Peer.local

pub read_peer : List ℕ → Peer
read_peer [] = Peer.local
read_peer (c ∷ cs) =
    if leb 30 (length (c ∷ cs))
    then Peer.ipv6 (read_hex (c ∷ cs) none)
    else if is_digit c
    then Peer.ipv4 (read_fields (c ∷ cs) 0)
    else read_named cs

abbrev pub peer_of : SockAddr → Peer
peer_of (inet addr high low) = Peer.ipv4 (take 4 addr ++ ((high * 256 + low) ∷ []))
peer_of (inet6 addr) = Peer.ipv6 (take 16 addr)
peer_of unix = Peer.local
peer_of (other number) = Peer.family (number ∷ [])

read_peer-short :
    (c : ℕ) (cs : List ℕ)
    → length (c ∷ cs) < 30
    → is_digit c ≡ true
    → read_peer (c ∷ cs) ≡ Peer.ipv4 (read_fields (c ∷ cs) 0)
unfolding read_peer
read_peer-short c cs h d =
    let short : leb 30 (length (c ∷ cs)) ≡ false = ground arith in rw (short, d) refl

read_peer-long :
    (text : List ℕ) → 30 ≤ length text → read_peer text ≡ Peer.ipv6 (read_hex text none)
unfolding read_peer
read_peer-long [] h = absurd (omega arith)
read_peer-long (c ∷ cs) h =
    let long : leb 30 (length (c ∷ cs)) ≡ true = ground arith in rw long refl

-- A text that begins with a digit.
record Begins (text : List ℕ) : Type 0 where
  first : ℕ
  rest : List ℕ
  splits : text ≡ first ∷ rest
  digit : is_digit first ≡ true

Begins-append : (xs ys : List ℕ) → Begins xs → Begins (xs ++ ys)
Begins-append xs ys b = record {
  first = b.first;
  rest = b.rest ++ ys;
  splits = ap (λ t. t ++ ys) b.splits;
  digit = b.digit;
}

decimal_fuel-Begins : (fuel n : ℕ) → Begins (decimal_fuel fuel n)
unfolding decimal_fuel
decimal_fuel-Begins zero n = record {
  first = b'0' + n % 10;
  rest = [];
  splits = refl;
  digit = ground arith;
}
decimal_fuel-Begins (suc fuel) n = elim (Bool-cases (ltb n 10)) [
  | inl small ↦
      rw small (record { first = b'0' + n; rest = []; splits = refl; digit = ground arith })
  | inr big ↦ rw big (
      Begins-append (decimal_fuel fuel (n / 10)) ((b'0' + n % 10) ∷ [])
        (decimal_fuel-Begins fuel (n / 10)))
]

dotted-Begins : (xs : List ℕ) (port : ℕ) → Begins (dotted xs port)
unfolding dotted decimal
dotted-Begins [] port = decimal_fuel-Begins 4 port
dotted-Begins (a ∷ []) port =
    Begins-append (decimal a) (b':' ∷ decimal port) (decimal_fuel-Begins 4 a)
dotted-Begins (a ∷ b ∷ rest) port =
    Begins-append (decimal a) (b'.' ∷ dotted (b ∷ rest) port) (decimal_fuel-Begins 4 a)

read_peer-Begins :
    (text : List ℕ)
    → Begins text
    → length text < 30
    → read_peer text ≡ Peer.ipv4 (read_fields text 0)
read_peer-Begins text b h =
    ap read_peer b.splits
    ∙ read_peer-short b.first b.rest (omega (arith, ap length b.splits)) b.digit
    ∙ ap (λ t. Peer.ipv4 (read_fields t 0)) (sym b.splits)

colon_pairs_long : (xs : List ℕ) → length xs * 2 ≤ length (colon_pairs xs)
unfolding colon_pairs hex_byte
colon_pairs_long [] = omega arith
colon_pairs_long (a ∷ []) = omega arith
colon_pairs_long (a ∷ b ∷ rest) = omega (arith, colon_pairs_long rest)

grouped_rest :
    (a b : ℕ) (rest : List ℕ)
    → length (a ∷ b ∷ rest) * 2 ≤ length (hex_byte a ++ (hex_byte b ++ colon_pairs rest))
unfolding hex_byte
grouped_rest a b rest = omega (arith, colon_pairs_long rest)

grouped_long : (xs : List ℕ) → 2 ≤ length xs → length xs * 2 ≤ length (grouped xs)
grouped_long xs l =
    pairs_of (λ xs text. length xs * 2 ≤ length text) (λ a b rest. grouped_rest a b rest) xs l

read_peer-other :
    (number : ℕ)
    → number < 256
    → read_peer (codes "af=" ++ decimal number) ≡ Peer.family (number ∷ [])
unfolding read_peer read_named
read_peer-other number h =
    let (few, is_text) = decimal_bounds number in
    let short : leb 30 (length (codes "af=" ++ decimal number)) ≡ false = ground arith in
    rw short (ap Peer.family (read_fields-end number (omega arith)))

-- A printed form of a peer reads back as the peer.
host_text-reads :
    (addr : SockAddr) {text : List ℕ}
    → IsAddress addr
    → host_text addr ≡ some text
    → read_peer text ≡ peer_of addr
unfolding host_text read_peer read_named
host_text-reads (inet addr high low) {text} h e =
    let made = ap (Option.map (λ a. dotted a (high * 256 + low))) (read_bytes_lem 4 addr h.0) in
    let same : text ≡ dotted (take 4 addr) (high * 256 + low) = cc (made) in
    let (short, is_text) = dotted_bounds (take 4 addr) (high * 256 + low) in
    let four = length-take 4 addr in
    let begins : Begins text =
      subst Begins (sym same) (dotted-Begins (take 4 addr) (high * 256 + low)) in
    read_peer-Begins text begins (omega (arith, ap length same))
    ∙ ap Peer.ipv4 (inet_roundtrip addr high low h e)
host_text-reads (inet6 addr) {text} h e =
    let made = ap (Option.map grouped) (read_bytes_lem 16 addr h.0) in
    let same : text ≡ grouped (take 16 addr) = cc (made) in
    let sixteen = length-take 16 addr in
    let long = grouped_long (take 16 addr) (omega arith) in
    read_peer-long text (omega (arith, ap length same)) ∙ ap Peer.ipv6 (inet6_roundtrip addr h e)
host_text-reads unix {text} h e = let same : text ≡ codes "<unix>" = cc (e) in ap read_peer same
host_text-reads (other number) {text} h e =
    let same : text ≡ codes "af=" ++ decimal number = cc (e) in
    ap read_peer same ∙ read_peer-other number h

-- A peer of any family has a printed form, for an address that holds the bytes which its family
-- reads. It has no NUL inside, leaves room for one in `host`, tells its family by itself, and gives
-- back what the family has of it: the four bytes and the port of AF_INET, the sixteen bytes of
-- AF_INET6, nothing of AF_UNIX, and the number of any other family.
pub host_text_roundtrip :
    (addr : SockAddr)
    → IsAddress addr
    → (text : List ℕ) × (host_text addr ≡ some text)
      × IsText text
      × (length text < host_size)
      × (read_peer text ≡ peer_of addr)
host_text_roundtrip addr h =
    let (text, printed, is_text, fits) = host_text_bounds addr h in
    (text, printed, is_text, fits, host_text-reads addr h printed)
