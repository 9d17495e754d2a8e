-- ===== src/RbTree/Stuck.antt =====
-- A case that the loop of `rbtree_remove_fixup` in src/rbtree.c has no branch for: the sibling is
-- black, and its child away from the node is red.
