-- ===== src/Slist/Pool.antt =====
-- Items from the pool of released items, or new ones. `fresh` is what `calloc` returns; the program
-- exits where that is null.
use regex.Base.{◌+◌, ◌-◌, ltb, ◌==◌, if◌then◌else◌, some}
use regex.Slist.Memory.{
  Ptr, null, item, Slist, M, pure, fault, ◌>>=◌, ◌>>◌, load, store, set_next, set_content,
}

unfoldable pub release_to_pool : Slist → Ptr → M Slist
unfolding set_next set_content
release_to_pool l p = do
  set_next p null
  set_content p null
  if l.pool == null then pure tt else set_next p l.pool
  pure (record l { pool = p; pool_size = l.pool_size + 1; size = l.size - 1 })

unfoldable pub allocate_from_pool : Slist → M (Ptr × Slist)
unfolding set_next
allocate_from_pool l = do
  old_head ← load l.pool
  set_next l.pool null
  pure (l.pool, record l { pool = old_head.next; pool_size = l.pool_size - 1 })

abbrev pub xmalloc : Ptr → M Ptr
xmalloc fresh =
    if fresh == null then fault else (do store fresh (some (item null null)); pure fresh)

unfoldable pub new_list_item : Ptr → Slist → Ptr → M (Ptr × Slist)
unfolding allocate_from_pool set_next set_content
new_list_item fresh l content = do
  (p, l') ← if ltb 0 l.pool_size then allocate_from_pool l else (do p ← xmalloc fresh; pure (p, l))
  set_content p content
  set_next p null
  pure (p, l')
