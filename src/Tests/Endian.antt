-- ===== src/Tests/Endian.antt =====
-- The conversions over byte order functions of a little-endian machine.
use sedarwin.Prelude.{refl, arith}
use sedarwin.Endian.{w32, ByteOrder, htole, letoh, htobe, betoh, bswap}
use sedarwin.Endian.Order.{bytes_of, swapped, Documented, Converts, conversions-Converts}

abbrev machine : ByteOrder
machine = record {
  os_swap_host_to_little_int = λ w x. x;
  os_swap_little_to_host_int = λ w x. x;
  os_swap_host_to_big_int = λ w x. swapped (bytes_of w) x;
  os_swap_big_to_host_int = λ w x. swapped (bytes_of w) x;
  os_swap_int = λ w x. swapped (bytes_of w) x;
}

abbrev machine-Documented : Documented machine
machine-Documented = record {
  host_to_little = λ w x h. refl;
  little_to_host = λ w x h. refl;
  host_to_big = λ w x h. refl;
  big_to_host = λ w x h. refl;
  swaps = λ w x h. refl;
}

conversions-Converts_example :
    Converts 4 0xcafe_babe
      (htole machine w32)
      (letoh machine w32)
      (htobe machine w32)
      (betoh machine w32)
      (bswap machine w32)
conversions-Converts_example =
    conversions-Converts machine machine-Documented w32 0xcafe_babe (omega arith)
