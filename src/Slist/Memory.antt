-- ===== src/Slist/Memory.antt =====
-- Items at addresses, the `List` struct, and the slots that `list->iter` and `item_pp` point at.
use regex.Base.{ℕ, Option, none, some, ◌==◌, if◌then◌else◌}
use regex.Base.Int.{ℤ, negsuc}

abbrev pub Ptr : Type 0
Ptr = ℕ

abbrev pub null : Ptr
null = 0

-- `ListItem`; the data is a pointer that the list does not follow.
pub record Item : Type 0 where
  pub next : Ptr
  pub content : Ptr

abbrev pub item : Ptr → Ptr → Item
item q d = record { next = q; content = d }

abbrev pub Memory : Type 0
Memory = Ptr → Option Item

-- A `ListItem **`: null, the head of the list, or the `next` of an item.
pub data Slot : Type 0 where
  nowhere : Slot
  at_head : Slot
  next_of : Ptr → Slot

-- The struct `List`. `size` and `pool_size` count items and are not negative.
pub record Slist : Type 0 where
  pub size : ℕ
  pub pool_size : ℕ
  pub iter_idx : ℤ
  pub iter : Slot
  pub head : Ptr
  pub pool : Ptr
  pub tail : Ptr

-- `none` is a fault: a read or write through null or a freed pointer, a failed allocation, or a
-- loop that used up its fuel.
abbrev pub M : Type 0 → Type 0
M A = Memory → Option (A × Memory)

abbrev pub pure : {A : Type 0} → A → M A
pure a m = some (a, m)

abbrev pub fault : {A : Type 0} → M A
fault m = none

infixl 5 ◌>>=◌ ◌>>◌
abbrev pub ◌>>=◌ : {A B : Type 0} → M A → (A → M B) → M B
◌>>=◌ p f m = elim (p m) [ none ↦ none | some (a, m') ↦ f a m' ]

abbrev pub ◌>>◌ : {B : Type 0} → M (Unit {0}) → M B → M B
p >> k = p >>= λ _. k

unfoldable pub write : Memory → Ptr → Option Item → Memory
write m p c a = if a == p then c else m a

-- `*p`
unfoldable pub load : Ptr → M Item
load p m = if p == null then none else elim (m p) [ none ↦ none | some n ↦ some (n, m) ]

abbrev pub store : Ptr → Option Item → M (Unit {0})
store p c m = some (tt, write m p c)

-- `p->next = q`
unfoldable pub set_next : Ptr → Ptr → M (Unit {0})
set_next p q = do n ← load p; store p (some (record n { next = q }))

-- `p->data = d`
unfoldable pub set_content : Ptr → Ptr → M (Unit {0})
set_content p d = do n ← load p; store p (some (record n { content = d }))

unfoldable pub free : Ptr → M (Unit {0})
free p = do n ← load p; store p none

-- `*slot`
unfoldable pub read_slot : Slist → Slot → M Ptr
unfolding load
read_slot l nowhere = fault
read_slot l at_head = pure l.head
read_slot l (next_of p) = do n ← load p; pure n.next

-- `*slot = q`
unfoldable pub write_slot : Slist → Slot → Ptr → M Slist
unfolding set_next
write_slot l nowhere q = fault
write_slot l at_head q = pure (record l { head = q })
write_slot l (next_of p) q = do set_next p q; pure l

abbrev pub new_list : Slist
new_list = record {
  size = 0;
  pool_size = 0;
  iter_idx = negsuc 0;
  iter = at_head;
  head = null;
  pool = null;
  tail = null;
}
