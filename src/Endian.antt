-- ===== src/Endian.antt =====
-- The byte order conversions of lib/libkern-bsd/include/sys/endian.h. The functions of
-- <libkern/OSByteOrder.h> that they name are parameters.
pub mod Order
use sedarwin.Prelude.{ℕ}

-- The `16`, `32` or `64` at the end of a name.
pub data Width : Type 0 where
  w16 w32 w64 : Width

pub record ByteOrder : Type 0 where
  pub os_swap_host_to_little_int : Width → ℕ → ℕ
  pub os_swap_little_to_host_int : Width → ℕ → ℕ
  pub os_swap_host_to_big_int : Width → ℕ → ℕ
  pub os_swap_big_to_host_int : Width → ℕ → ℕ
  pub os_swap_int : Width → ℕ → ℕ

module _ (o : ByteOrder) where
  open o use {
    os_swap_host_to_little_int, os_swap_little_to_host_int, os_swap_host_to_big_int,
    os_swap_big_to_host_int, os_swap_int,
  }

  -- `htole16(x)`, `htole32(x)`, `htole64(x)`
  unfoldable pub htole : Width → ℕ → ℕ
  htole w16 x = os_swap_host_to_little_int w16 x
  htole w32 x = os_swap_host_to_little_int w32 x
  htole w64 x = os_swap_host_to_little_int w64 x

  -- `le16toh(x)`, `le32toh(x)`, `le64toh(x)`
  unfoldable pub letoh : Width → ℕ → ℕ
  letoh w16 x = os_swap_little_to_host_int w16 x
  letoh w32 x = os_swap_little_to_host_int w32 x
  letoh w64 x = os_swap_little_to_host_int w64 x

  -- `htobe16(x)`, `htobe32(x)`, `htobe64(x)`
  unfoldable pub htobe : Width → ℕ → ℕ
  htobe w16 x = os_swap_host_to_big_int w16 x
  htobe w32 x = os_swap_host_to_big_int w32 x
  htobe w64 x = os_swap_host_to_big_int w64 x

  -- `be16toh(x)`, `be32toh(x)`, `be64toh(x)`
  unfoldable pub betoh : Width → ℕ → ℕ
  betoh w16 x = os_swap_big_to_host_int w16 x
  betoh w32 x = os_swap_big_to_host_int w32 x
  betoh w64 x = os_swap_big_to_host_int w64 x

  -- `bswap16(x)`, `bswap32(x)`, `bswap64(x)`
  unfoldable pub bswap : Width → ℕ → ℕ
  bswap w16 x = os_swap_int w16 x
  bswap w32 x = os_swap_int w32 x
  bswap w64 x = os_swap_int w64 x
