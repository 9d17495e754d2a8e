-- ===== src/Recognizer/Pool.antt =====
-- The pools of threads, src/recognizer.c. A thread (`NFASim`) stands at an address; of its fields
-- the pools use `next` only, and `content` stands for all others.
use regex.Base.{◌==◌, if◌then◌else◌}
use regex.Slist.Memory.{Ptr, null, M, pure, ◌>>=◌, ◌>>◌, load, set_next}

pub record SimPoolList : Type 0 where
  pub head : Ptr
  pub tail : Ptr

abbrev pub sim_pool : Ptr → Ptr → SimPoolList
sim_pool h t = record { head = h; tail = t }

-- The pools of an `NFASimCtrl`.
pub record Pools : Type 0 where
  pub thread_pool : SimPoolList
  pub active_threads : SimPoolList
  pub next_threads : SimPoolList

unfoldable pub swap_next_w_active : Pools → Pools
swap_next_w_active ctrl = record ctrl {
  active_threads = ctrl.next_threads;
  next_threads = sim_pool null null;
}

unfoldable pub sim_pool_shift : SimPoolList → M (Ptr × SimPoolList)
sim_pool_shift pool = if pool.head == null then pure (null, pool) else (do
  ret ← load pool.head
  set_next pool.head null
  pure (
    pool.head,
    if pool.head == pool.tail then sim_pool null null else sim_pool ret.next pool.tail,
  ))

unfoldable pub sim_pool_append : SimPoolList → Ptr → M SimPoolList
sim_pool_append pool thread =
    if pool.head == null
    then (do set_next thread null; pure (sim_pool thread thread))
    else (do set_next pool.tail thread; set_next thread null; pure (record pool { tail = thread }))

-- `thread_pool.tail->next = other.head`, and its tail becomes the other's.
unfoldable pub link_pool : SimPoolList → SimPoolList → M SimPoolList
link_pool pool other = do set_next pool.tail other.head; pure (record pool { tail = other.tail })

-- `if(next_threads.head != NULL)`
unfoldable pub link_next : SimPoolList → SimPoolList → M SimPoolList
link_next pool next_threads =
    if next_threads.head == null then pure pool else link_pool pool next_threads

-- `if(thread)`
unfoldable pub link_thread : SimPoolList → Ptr → M SimPoolList
link_thread pool thread =
    if thread == null then pure pool else link_pool pool (sim_pool thread thread)

-- `thread` may be null.
unfoldable pub release_all_threads : Pools → Ptr → M Pools
release_all_threads ctrl thread = do
  released ←
      if ctrl.thread_pool.head == null
      then (if ctrl.active_threads.head == null
          then (if ctrl.next_threads.head == null
              then (if thread == null then pure ctrl.thread_pool else pure (sim_pool thread thread))
              else link_thread ctrl.next_threads thread)
          else (do p ← link_next ctrl.active_threads ctrl.next_threads; link_thread p thread))
      else (do
        p ←
            if ctrl.active_threads.head == null
            then link_next ctrl.thread_pool ctrl.next_threads
            else (do
              q ← link_pool ctrl.thread_pool ctrl.active_threads
              link_next q ctrl.next_threads)
        link_thread p thread)
  if thread == null then pure tt else set_next thread null
  pure (record {
    thread_pool = released;
    active_threads = sim_pool null null;
    next_threads = sim_pool null null;
  })
