-- ===== src/RbTree/Memory.antt =====
-- The structs of src/rbtree.h, `RBTree` and `RBTreeCtrl`, and reads and writes of their fields.
use regex.Base.{ℕ, Bool, true, false, Option, none, some, List, ◌∷◌, ◌==◌, if◌then◌else◌}
use regex.Base.Int.{ℤ}

abbrev pub Ptr : Type 0
Ptr = ℕ

abbrev pub null : Ptr
null = 0

pub data Color : Type 0 where
  red black : Color

abbrev pub is_red : Color → Bool
is_red red = true
is_red black = false

pub record RbNode : Type 0 where
  pub key : ℤ
  pub left : Ptr
  pub right : Ptr
  pub parent : Ptr
  pub content : Ptr
  pub color : Color

pub record RbTreeCtrl : Type 0 where
  pub count : ℕ
  pub root : Ptr
  pub pool_root : Ptr
  pub pool_ptr : Ptr

-- The nodes at their addresses, the control block, and the data that were freed, the latest first.
pub record TreeMemory : Type 0 where
  pub nodes : Ptr → Option RbNode
  pub ctrl : RbTreeCtrl
  pub freed : List Ptr

-- `none` is a fault: a read or write through null or a freed pointer, or a loop that used up its
-- fuel.
abbrev pub M : Type 0 → Type 0
M A = TreeMemory → Option (A × TreeMemory)

abbrev pub pure : {A : Type 0} → A → M A
pure a m = some (a, m)

abbrev pub fault : {A : Type 0} → M A
fault m = none

infixl 5 ◌>>=◌ ◌>>◌
abbrev pub ◌>>=◌ : {A B : Type 0} → M A → (A → M B) → M B
◌>>=◌ p f m = elim (p m) [ none ↦ none | some (a, m') ↦ f a m' ]

abbrev pub ◌>>◌ : {B : Type 0} → M (Unit {0}) → M B → M B
p >> k = p >>= λ _. k

unfoldable pub write_at : (Ptr → Option RbNode) → Ptr → Option RbNode → Ptr → Option RbNode
write_at f p c a = if a == p then c else f a

-- `*p`
unfoldable pub read_node : Ptr → M RbNode
read_node p m = if p == null then none else elim (m.nodes p) [ none ↦ none | some n ↦ some (n, m) ]

unfoldable pub store_node : Ptr → Option RbNode → M (Unit {0})
store_node p c m = some (tt, record m { nodes = write_at m.nodes p c })

-- `p->left = q` and its like
unfoldable pub set_left : Ptr → Ptr → M (Unit {0})
set_left p q = do n ← read_node p; store_node p (some (record n { left = q }))

unfoldable pub set_right : Ptr → Ptr → M (Unit {0})
set_right p q = do n ← read_node p; store_node p (some (record n { right = q }))

unfoldable pub set_parent : Ptr → Ptr → M (Unit {0})
set_parent p q = do n ← read_node p; store_node p (some (record n { parent = q }))

unfoldable pub set_color : Ptr → Color → M (Unit {0})
set_color p c = do n ← read_node p; store_node p (some (record n { color = c }))

-- `free(p)` of a node
unfoldable pub free_node : Ptr → M (Unit {0})
free_node p = do _ ← read_node p; store_node p none

-- `free(d)` of a node's data
unfoldable pub free_content : Ptr → M (Unit {0})
free_content d m = some (tt, record m { freed = d ∷ m.freed })

unfoldable pub get_ctrl : M RbTreeCtrl
get_ctrl m = some (m.ctrl, m)

unfoldable pub put_ctrl : RbTreeCtrl → M (Unit {0})
put_ctrl c m = some (tt, record m { ctrl = c })

-- `t->ctrl->root = p`
unfoldable pub set_root : Ptr → M (Unit {0})
set_root p m = some (tt, record m { ctrl = record m.ctrl { root = p } })
