-- ===== src/Slist/Whole.antt =====
-- The operations on a whole list: clearing, freeing, copying, reversing, transferring, chopping.
use regex.Base.{
  List, [], ◌∷◌, ℕ, zero, suc, ◌+◌, ◌-◌, Bool, not, ◌&&◌, Option, none, some, ltb, leb, ◌==◌,
  if◌then◌else◌,
}
use regex.Base.Int.{pos, negsuc}
use regex.Slist.Memory.{
  Ptr, null, Slist, Slot, nowhere, at_head, next_of, M, pure, fault, ◌>>=◌, ◌>>◌, load, set_next,
  free, read_slot, write_slot, new_list,
}
use regex.Slist.Ends.{list_append}

-- `while(dst->next) dst = dst->next;` and the write `dst->next = src` behind it
link_end : ℕ → Ptr → Ptr → M (Unit {0})
link_end zero dst src = fault
link_end (suc k) dst src = do
  n ← load dst
  if n.next == null then set_next dst src else link_end k n.next src

-- The shorter chain is put in front of the longer one.
join_pool : Slist → M Slist
join_pool l =
    if l.pool_size == 0
    then pure (record l { pool = l.head })
    else if ltb l.size l.pool_size
    then (do link_end (l.size + 1) l.head l.pool; pure (record l { pool = l.head }))
    else (do link_end (l.pool_size + 1) l.pool l.head; pure l)

unfoldable pub list_clear : Slist → M Slist
unfolding join_pool link_end set_next
list_clear l = if l.size == 0 then pure l else (do
  l' ← join_pool l
  pure (record l' {
    head = null;
    tail = null;
    iter = at_head;
    pool_size = l'.pool_size + l'.size;
    size = 0;
    iter_idx = negsuc 0;
  }))

-- The data that `delete_data` is called with are the result, in order; the flag says whether there
-- is such a function. The last item is freed apart, and its data only if it is not null.
free_items : ℕ → Bool → Ptr → Slist → M (List Ptr × Slist)
free_items zero delete p l = fault
free_items (suc k) delete p l = if p == null then pure ([], l) else (do
  n ← load p
  free p
  if n.next == null
      then pure (if delete && not (n.content == null) then n.content ∷ [] else [], l)
      else (do
        (rest, l') ← free_items k delete n.next (record l { pool_size = l.pool_size - 1 })
        pure (if delete then n.content ∷ rest else rest, l')))

-- The struct is left with a dangling pool.
unfoldable pub list_free_items : Slist → Bool → M (List Ptr × Slist)
unfolding list_clear free_items free
list_free_items l delete = do l' ← list_clear l; free_items (l'.pool_size + 1) delete l'.pool l'

-- The struct itself is freed as well.
unfoldable pub list_free : Slist → Bool → M (List Ptr)
unfolding list_free_items
list_free l delete = do (deleted, _) ← list_free_items l delete; pure deleted

-- The copy is memory from `calloc`; each item takes one of the fresh addresses.
copy_items : List Ptr → Slist → Ptr → M Slist
copy_items [] l p = if p == null then pure l else fault
copy_items (fresh ∷ more) l p =
    if p == null
    then pure l
    else (do n ← load p; (_, l') ← list_append fresh l n.content; copy_items more l' n.next)

unfoldable pub list_deep_copy : List Ptr → Ptr → M (Option Slist)
unfolding copy_items list_append
list_deep_copy fresh p = if p == null then pure none else (do
  l ← copy_items fresh (record new_list { iter_idx = pos 0; iter = nowhere }) p
  pure (some l))

-- `node` is turned to `prev`, and the last node in its own round.
reverse_items : ℕ → Ptr → Ptr → Ptr → M Ptr
reverse_items zero prev node next = fault
reverse_items (suc k) prev node next = if next == null then pure node else (do
  set_next node prev
  n ← load next
  if n.next == null
      then (do set_next next node; reverse_items k node next n.next)
      else reverse_items k node next n.next)

unfoldable pub list_reverse : ℕ → Ptr → M Ptr
unfolding reverse_items set_next
list_reverse fuel node =
    if node == null then pure null else (do n ← load node; reverse_items fuel null node n.next)

-- The destination and the emptied source. `*(src->iter) = NULL` is a write through the iterator.
unfoldable pub list_transfer : Slist → Slist → M (Slist × Slist)
unfolding set_next write_slot
list_transfer dst src = if src.head == null then pure (dst, src) else (do
  if dst.head == null then pure tt else set_next dst.tail src.head
  let dst' = record dst {
    head = if dst.head == null then src.head else dst.head;
    tail = src.tail;
    size = dst.size + src.size;
  }
  src' ← write_slot (record src { head = null; tail = null }) src.iter null
  pure (dst', record src' { iter_idx = negsuc 0; size = 0 }))

-- `for(int i = 0; i < sz; ++i)`, by the rounds left: the slot behind the last item passed
chop_walk : ℕ → Slist → Slot → Ptr → M (Slot × Ptr)
chop_walk zero l slot last = pure (slot, last)
chop_walk (suc k) l slot last = do p ← read_slot l slot; chop_walk k l (next_of p) p

-- The first `sz` items as a list of their own, and what is left.
unfoldable pub list_chop : Slist → ℕ → M (Option Slist × Slist)
unfolding chop_walk read_slot write_slot
list_chop l sz =
    if l.head == null
    then pure (none, l)
    else if sz == 0
    then pure (none, l)
    else if leb l.size sz
    then pure (
      some (record new_list { head = l.head; size = l.size; tail = l.tail }),
      record l { head = null; tail = null; size = 0 },
    )
    else (do
      (slot, last) ← chop_walk sz l at_head l.head
      rest ← read_slot l slot
      let left = record l { head = rest; size = l.size - sz }
      left' ← write_slot left slot null
      pure (some (record new_list { head = l.head; size = sz; tail = last }), left'))

-- The items of the source that `compare` answers for are freed, and the answers appended to the
-- destination; each takes one of the fresh addresses.
match_loop : ℕ → (Ptr → Ptr) → List Ptr → Slist → Slist → Slot → M (Slist × Slist)
match_loop zero compare fresh dst src slot = fault
match_loop (suc k) compare fresh dst src slot = do
  p ← read_slot src slot
  if p == null then pure (dst, src) else (do
    n ← load p
    let res = compare n.content
    if res == null then match_loop k compare fresh dst src (next_of p) else elim fresh [
      | [] ↦ fault
      | new ∷ more ↦ (do
        (_, dst') ← list_append new dst res
        unlinked ← write_slot src slot n.next
        free p
        match_loop k compare more dst' (record unlinked { size = unlinked.size - 1 }) slot)
    ])

-- The two lists are not the same, and the source is not null.
unfoldable pub list_transfer_on_match : List Ptr → Slist → Slist → (Ptr → Ptr) → M (Slist × Slist)
unfolding match_loop
list_transfer_on_match fresh dst src compare = do
  (dst', left) ← match_loop (src.size + 1) compare fresh dst src at_head
  if left.size == 0
      then (do
        src' ← write_slot (record left { head = null; tail = null }) left.iter null
        pure (dst', record src' { iter_idx = negsuc 0 }))
      else if left.size == 1
      then (do
        src' ← write_slot (record left { tail = left.head }) left.iter left.head
        pure (dst', record src' { iter_idx = pos 0 }))
      else pure (dst', left)

-- `list_iterate`: the action works on a state of the caller.
unfoldable pub iterate_items : {S : Type 0} → ℕ → (Ptr → S → S) → Ptr → S → M S
iterate_items zero action p s = pure s
iterate_items (suc k) action p s = do n ← load p; iterate_items k action n.next (action n.content s)

unfoldable pub list_iterate : {S : Type 0} → Slist → (Ptr → S → S) → S → M S
list_iterate l action s = iterate_items l.size action l.head s

-- `list_iterate2`: each result of the action overwrites the one before it.
iterate2_items : {S : Type 0} → ℕ → (Ptr → S → Ptr × S) → Ptr → Ptr → S → M (Ptr × S)
iterate2_items zero action p ret s = pure (ret, s)
iterate2_items (suc k) action p ret s = do
  n ← load p
  let (ret', s') = action n.content s
  iterate2_items k action n.next ret' s'

unfoldable pub list_iterate2 : {S : Type 0} → Slist → (Ptr → S → Ptr × S) → Ptr → S → M (Ptr × S)
unfolding iterate2_items
list_iterate2 l action ret s = iterate2_items l.size action l.head ret s
