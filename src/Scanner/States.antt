-- ===== src/Scanner/States.antt =====
-- The stack of scanners, `G_STATE_STACK`, that `scanner_push_state` and `scanner_pop_state` use. It
-- is the list of its entries, top first: `push` returns its new size.
use regex.Base.{ℕ, ◌+◌, Option, none, some, List, [], ◌∷◌, length}
use regex.Scanner.{Scanner}

pub record States : Type 0 where
  pub current : Option Scanner
  pub stack : List Scanner

pub scanner_push_state : States → Option Scanner → ℕ × States
scanner_push_state st new = elim (st.current) [
  | none ↦ (0, record st { current = new })
  | some old ↦ (length st.stack + 1, record { current = new; stack = old ∷ st.stack })
]

-- `pop` of an empty stack is a null.
pop_stack : List Scanner → States
pop_stack [] = record { current = none; stack = [] }
pop_stack (s ∷ st) = record { current = some s; stack = st }

pub scanner_pop_state : States → Option Scanner × States
unfolding pop_stack
scanner_pop_state st = elim (st.current) [
  | none ↦ (none, st)
  | some s ↦ (some s, pop_stack st.stack)
]
