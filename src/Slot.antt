-- ===== src/Slot.antt =====
-- Hash slots: the set operations, ranges and loops of
-- 23-redis-cluster-operator-0.2.3/pkg/redisutil/slot.go. A `Slot` is a uint64: a number below
-- `word`, with the wrap-around of `+ 1` written out in `next`.
-- `Ranges` is about the ranges, `Sets` about the set operations, `Codec` has the text forms.
mod Defs
pub mod Sets
pub mod Ranges
pub mod Codec
unfoldable pub use Defs.*
