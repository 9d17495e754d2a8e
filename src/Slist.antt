-- ===== src/Slist.antt =====
-- The linked list of src/slist.h and src/slist.c. Its items live in an explicit memory; the `List`
-- struct is a value that an operation takes and returns. A list is not null here: the guard
-- `list == NULL` with which each function begins is left out.
pub mod Memory
pub mod Pool
pub mod Ends
pub mod Walk
pub mod Whole
pub mod Chain
pub mod Lookup
pub mod Access
pub mod Tests
