-- ===== src/Net.antt =====
-- The socket hooks of kext/net.c, with the rendering of the peer's address.
pub mod Digits
pub mod Texts
pub mod Address
pub mod Peer
use mathlib.Core.Option
use sedarwin.Prelude.{
  length, take, leb, ◌-◌, ℕ, zero, suc, ◌+◌, ◌*◌, ◌/◌, ◌%◌, Bool, List, [], ◌∷◌, ◌++◌, Option, none,
  some, ltb, ◌==◌, if◌then◌else◌, get_elem?,
}
use sedarwin.Bytes.{strlcpy, store, c_string}
use sedarwin.Kernel.{Kernel, Line, Hooked, pure, ◌>>=◌, ◌>>◌, lift, when}
use sedarwin.Trace.{Flag, codes, tracing, log_debug, cur_name, cur_pid, uid_of}

-- `%u`, most significant digit first, of at most `fuel + 1` digits.
unfoldable pub decimal_fuel : ℕ → ℕ → List ℕ
decimal_fuel zero n = (b'0' + n % 10) ∷ []
decimal_fuel (suc fuel) n =
    if ltb n 10 then (b'0' + n) ∷ [] else decimal_fuel fuel (n / 10) ++ ((b'0' + n % 10) ∷ [])

-- The values that are printed lie below 2 ^ 16, and have five digits at most.
unfoldable pub decimal : ℕ → List ℕ
unfolding decimal_fuel
decimal n = decimal_fuel 4 n

unfoldable pub hex_digit : ℕ → ℕ
hex_digit n = if ltb n 10 then b'0' + n else b'a' + (n - 10)

-- `%02x` of a byte
unfoldable pub hex_byte : ℕ → List ℕ
unfolding hex_digit
hex_byte b = hex_digit (b / 16) ∷ hex_digit (b % 16) ∷ []

-- `"%u.%u.%u.%u:%u"`
unfoldable pub dotted : List ℕ → ℕ → List ℕ
unfolding decimal
dotted [] port = decimal port
dotted (a ∷ []) port = decimal a ++ (b':' ∷ decimal port)
dotted (a ∷ b ∷ rest) port = decimal a ++ (b'.' ∷ dotted (b ∷ rest) port)

-- `"%02x%02x:...:%02x%02x"`: bytes in pairs, with a colon before each pair but the first.
unfoldable pub colon_pairs : List ℕ → List ℕ
unfolding hex_byte
colon_pairs [] = []
colon_pairs (a ∷ []) = b':' ∷ hex_byte a
colon_pairs (a ∷ b ∷ rest) = b':' ∷ (hex_byte a ++ (hex_byte b ++ colon_pairs rest))

unfoldable pub grouped : List ℕ → List ℕ
unfolding colon_pairs
grouped (a ∷ b ∷ rest) = hex_byte a ++ (hex_byte b ++ colon_pairs rest)
grouped _ = []

-- `struct sockaddr` by its family: the bytes of the address in memory, and the two bytes of
-- `sin_port`, which is in network order. AF_UNIX's path is not read.
pub data SockAddr : Type 0 where
  inet : (addr : List ℕ) (port_high port_low : ℕ) → SockAddr
  inet6 : (addr : List ℕ) → SockAddr
  unix : SockAddr
  other : (sa_family : ℕ) → SockAddr

-- The first `n` bytes at a pointer.
unfoldable pub read_bytes : ℕ → List ℕ → Option (List ℕ)
read_bytes n a = if leb n (length a) then some (take n a) else none

-- What the switch formats.
unfoldable pub host_text : SockAddr → Option (List ℕ)
unfolding read_bytes dotted grouped decimal
host_text (inet addr high low) = Option.map (λ a. dotted a (high * 256 + low)) (read_bytes 4 addr)
host_text (inet6 addr) = Option.map grouped (read_bytes 16 addr)
host_text unix = some (codes "<unix>")
host_text (other family) = some (codes "af=" ++ decimal family)

abbrev pub host_size : ℕ
host_size = 64

module _ (k : Kernel) where
  open k use {maxcomlen, local_array}

  unfoldable pub socket_check_create : Flag → ℕ → ℕ → ℕ → Hooked ℕ
  socket_check_create trace domain kind protocol = do
    when (tracing trace) (do
      pname ← cur_name k (maxcomlen + 1)
      log_debug trace
          (do pid ← cur_pid k; pure (Line.socket_create pname pid domain kind protocol)))
    pure 0

  unfoldable pub trace_connect : Flag → ℕ → SockAddr → Hooked (Unit {0})
  unfolding host_text
  trace_connect trace cred addr = do
    pname ← cur_name k (maxcomlen + 1)
    empty ← lift (store (local_array host_size) 0 0)
    text ← lift (host_text addr)
    host ← lift (strlcpy empty text host_size)
    log_debug trace
        (do pid ← cur_pid k; uid ← uid_of k cred; pure (Line.connect pname pid (c_string host) uid))

  unfoldable pub connect_from : Flag → ℕ → Option SockAddr → Hooked (Unit {0})
  unfolding trace_connect
  connect_from trace cred none = pure tt
  connect_from trace cred (some addr) = trace_connect trace cred addr

  -- `addr` may be NULL.
  unfoldable pub socket_check_connect : Flag → ℕ → Option SockAddr → Hooked ℕ
  unfolding connect_from
  socket_check_connect trace cred addr = do
    when (tracing trace) (connect_from trace cred addr)
    pure 0

  unfoldable pub socket_check_listen : Flag → ℕ → Hooked ℕ
  socket_check_listen trace cred = do
    when (tracing trace) (do
      pname ← cur_name k (maxcomlen + 1)
      log_debug trace (do pid ← cur_pid k; uid ← uid_of k cred; pure (Line.listen pname pid uid)))
    pure 0
