-- ===== src/Slist/Ends.antt =====
-- The two ends of a list: a stack is pushed and shifted at the head, a queue appended to.
use regex.Base.{ℕ, ◌+◌, ◌==◌, if◌then◌else◌}
use regex.Base.Int.{pos, inc, dec, is_neg}
use regex.Slist.Memory.{Ptr, null, Slist, at_head, M, pure, ◌>>=◌, ◌>>◌, load, set_next}
use regex.Slist.Pool.{new_list_item, release_to_pool}

unfoldable pub list_get_tail : Slist → M Ptr
list_get_tail l = if l.tail == null then pure null else (do n ← load l.tail; pure n.content)

unfoldable pub list_get_head : Slist → M Ptr
list_get_head l = if l.head == null then pure null else (do n ← load l.head; pure n.content)

-- The index at which the item stands, and the list.
unfoldable pub list_append : Ptr → Slist → Ptr → M (ℕ × Slist)
unfolding new_list_item set_next
list_append fresh l content =
    if l.head == null
    then (do
      (p, l') ← new_list_item fresh l content
      pure (0, record l' { head = p; tail = p; iter = at_head; size = l'.size + 1 }))
    else (do
      (p, l') ← new_list_item fresh l content
      set_next l'.tail p
      pure (l'.size, record l' { tail = p; size = l'.size + 1 }))

-- `list->size == 0` in `list_push`
first_item : Slist → Slist
first_item l =
    if l.size == 0 then record l { iter = at_head; tail = l.head; iter_idx = pos 0 } else l

-- The new size, and the list.
unfoldable pub list_push : Ptr → Slist → Ptr → M (ℕ × Slist)
unfolding new_list_item set_next first_item
list_push fresh l content = do
  (p, l') ← new_list_item fresh l content
  set_next p l'.head
  let first = first_item (record l' { head = p })
  let counted = record first {
    iter_idx = if is_neg first.iter_idx then first.iter_idx else inc first.iter_idx;
    size = first.size + 1;
  }
  pure (counted.size, counted)

unfoldable pub list_shift : Slist → M (Ptr × Slist)
unfolding release_to_pool
list_shift l = if l.head == null then pure (null, l) else (do
  old_head ← load l.head
  l' ←
      release_to_pool
        (record l {
          head = old_head.next;
          tail = if l.head == l.tail then null else l.tail;
          iter_idx = dec l.iter_idx;
        })
        l.head
  pure (old_head.content, l'))
