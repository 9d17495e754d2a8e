-- ===== src/RbTree.antt =====
-- The red-black trees of src/rbtree.c and src/rbtree.h: nodes at addresses, linked by pointers to
-- the children and the parent. One control block is modelled, so the field `ctrl` of a node, which
-- points at the block of its tree, is left out.
pub mod Memory
pub mod Shape
pub mod Cells
pub mod Focus
pub mod Fixup
pub mod Cases
pub mod Repair
pub mod Grow
pub mod Walk
pub mod Hang
pub mod Order
pub mod Insertion
pub mod Found
pub mod Stuck
pub mod Steps
pub mod Tests
pub mod Rounds
pub mod Balance
pub mod Queries
pub mod Rotate
pub mod Insert
pub mod Pool
pub mod Free
pub mod Remove
