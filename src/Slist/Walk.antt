-- ===== src/Slist/Walk.antt =====
-- The operations that walk to a position. A walk has fuel: the size of the list and one round more
-- is enough for a list that has as many items as its size says.
use regex.Base.{
  ℕ, zero, suc, ◌+◌, ◌-◌, Bool, true, false, not, ◌&&◌, ◌||◌, Option, none, some, ltb, leb, ◌==◌,
  if◌then◌else◌,
}
use regex.Base.Int.{ℤ, pos, negsuc, inc}
use regex.Slist.Memory.{
  Ptr, null, Slist, Slot, at_head, next_of, M, pure, fault, ◌>>=◌, ◌>>◌, load, set_next, read_slot,
  write_slot,
}
use regex.Slist.Pool.{new_list_item, release_to_pool}

-- `(*item_pp) && (*item_pp)->next && (cur_idx < (idx - 1))`, and the walk while it holds.
-- `remove_at` keeps the item before the slot in `tmp_tail`.
walk_to : ℕ → Slist → Slot → Ptr → ℕ → ℕ → M (Slot × Ptr × ℕ)
walk_to zero l slot behind cur idx = fault
walk_to (suc k) l slot behind cur idx = do
  p ← read_slot l slot
  if p == null then pure (slot, behind, cur) else (do
    n ← load p
    if not (n.next == null) && ltb (cur + 1) idx
        then walk_to k l (next_of p) p (cur + 1) idx
        else pure (slot, behind, cur))

-- -1 for a negative index, as `negsuc 0`.
pub list_insert_at : Ptr → Slist → Ptr → ℤ → M (ℤ × Slist)
unfolding walk_to read_slot write_slot new_list_item set_next
list_insert_at fresh l content (negsuc i) = pure (negsuc 0, l)
list_insert_at fresh l content (pos idx) = do
  (slot, _, cur) ← walk_to (l.size + 1) l at_head null 0 idx
  (new, l') ← new_list_item fresh l content
  let placed = if leb l'.size idx then record l' { tail = new } else l'
  if idx == 0
      then (do
        set_next new placed.head
        pure (pos cur, record placed { head = new; size = placed.size + 1 }))
      else (do
        p ← read_slot placed slot
        if p == null
            then (do
              linked ← write_slot placed slot new
              pure (pos cur, record linked { size = linked.size + 1 }))
            else (do
              n ← load p
              set_next new n.next
              set_next p new
              pure (pos (cur + 1), record placed { size = placed.size + 1 })))

pub list_get_iterator : Slist → M Ptr
unfolding read_slot
list_get_iterator l = if l.head == null then pure null else read_slot l l.iter

-- `list->iter = &((*(list->iter))->next)`, by the rounds left
advance_iter : ℕ → Slist → M Slist
advance_iter zero l = pure l
advance_iter (suc k) l = do
  p ← read_slot l l.iter
  advance_iter k (record l { iter = next_of p; iter_idx = inc l.iter_idx })

-- How far the iterator is from an index that is not below it.
rounds : ℤ → ℕ → ℕ
rounds (pos i) indx = indx - i
rounds (negsuc i) indx = indx + i + 1

-- `list->iter_idx > indx || list->iter_idx < 0`
beyond : ℤ → ℕ → Bool
beyond (pos i) indx = ltb indx i
beyond (negsuc i) indx = true

pub list_set_iterator : Slist → ℕ → M (Bool × Slist)
unfolding read_slot advance_iter rounds beyond
list_set_iterator l indx = if l.head == null || leb l.size indx then pure (false, l) else (do
  let start = if beyond l.iter_idx indx then record l { iter = at_head; iter_idx = pos 0 } else l
  l' ← advance_iter (rounds start.iter_idx indx) start
  pure (true, l'))

-- What `list_get_next` does at an index of the iterator that lies in the list.
next_at : Slist → ℕ → M (Ptr × Slist)
next_at l i = do
  p ← if i == 0 then pure l.head else read_slot l l.iter
  let moved = record l { iter = next_of p; iter_idx = inc l.iter_idx }
  if p == null then pure (null, moved) else (do n ← load p; pure (n.content, moved))

pub list_get_next : Slist → M (Ptr × Slist)
unfolding next_at read_slot
list_get_next l = if l.head == null then pure (null, l) else elim (l.iter_idx) [
  | negsuc i ↦ pure (null, l)
  | pos i ↦ if leb l.size i then pure (null, l) else next_at l i
]

-- The data pointer that is removed is compared with an item, `removed_data == *(list->iter)`.
unlink_at : Slist → Slot → Ptr → M (Ptr × Slist)
unlink_at l slot tmp_tail = do
  removed ← read_slot l slot
  n ← load removed
  unlinked ← write_slot l slot n.next
  let retailed = if removed == unlinked.tail then record unlinked { tail = tmp_tail } else unlinked
  it ← read_slot retailed retailed.iter
  l' ←
      release_to_pool
        (if n.content == it then record retailed { iter_idx = negsuc 0 } else retailed) removed
  pure (n.content, l')

unfoldable pub list_remove_at : Slist → ℤ → M (Ptr × Slist)
unfolding walk_to read_slot write_slot unlink_at
list_remove_at l (negsuc i) = pure (null, l)
list_remove_at l (pos idx) = if leb l.size idx then pure (null, l) else (do
  (slot, tmp_tail, _) ← walk_to (l.size + 1) l at_head l.head 0 idx
  if idx == 0
      then unlink_at l slot tmp_tail
      else (do p ← read_slot l slot; unlink_at l (next_of p) tmp_tail))

-- `while((cur_idx < idx) && iter->next)`
unfoldable pub walk_items : ℕ → Ptr → ℕ → M (Option Ptr)
walk_items zero p left = fault
walk_items (suc k) p zero = pure (some p)
walk_items (suc k) p (suc left) = do
  n ← load p
  if n.next == null then pure none else walk_items k n.next left

unfoldable pub list_get_at : Slist → ℤ → M Ptr
list_get_at l (negsuc i) = pure null
list_get_at l (pos idx) =
    if l.head == null || leb l.size idx
    then pure null
    else if idx == 0
    then (do n ← load l.head; pure n.content)
    else if idx == l.size - 1
    then (do n ← load l.tail; pure n.content)
    else (do
      found ← walk_items (l.size + 1) l.head idx
      elim found [ none ↦ pure null | some p ↦ (do n ← load p; pure n.content) ])

-- `list_search`: the first answer of `compare` that is not null, or its last one.
unfoldable pub search_items : ℕ → (Ptr → Ptr) → Ptr → M Ptr
search_items zero compare p = fault
search_items (suc k) compare p = do
  n ← load p
  let ret = compare n.content
  if ret == null && not (n.next == null) then search_items k compare n.next else pure ret

unfoldable pub list_search : Slist → (Ptr → Ptr) → M Ptr
list_search l compare =
    if l.head == null then pure null else search_items (l.size + 1) compare l.head
