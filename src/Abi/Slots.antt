-- ===== src/Abi/Slots.antt =====
-- The three parts of the list of slots.
mod Head
mod Middle
mod Tail
unfoldable pub use Head.{head_slots}
unfoldable pub use Middle.{middle_slots}
unfoldable pub use Tail.{tail_slots}
