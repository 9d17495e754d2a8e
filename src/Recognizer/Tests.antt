-- ===== src/Recognizer/Tests.antt =====
-- Runs of the thread pools and of the choice of matches.
use regex.Base.{◌||◌, ℕ, ◌≡◌, ◌≤◌, ◌<◌, refl, true, none, some, ◌∷◌, [], arith, ◌==◌, if◌then◌else◌}
use regex.Slist.Memory.{Ptr, item, Memory}
use regex.Slist.Chain.{nil, cons}
use regex.Recognizer.Pool.{SimPoolList, sim_pool, sim_pool_append, sim_pool_shift}
use regex.Recognizer.Queue.{IsPool, threads, sim_pool_append-IsPool, sim_pool_shift-IsPool}
use regex.Recognizer.Pool.{release_all_threads}
use regex.Recognizer.Release.{release_all_threads-IsPool, pools, empty_but}
use regex.Recognizer.Matches.{Match, update_longest_match, next_start}
use regex.Recognizer.Longest.{update_longest_match-span, next_start-Advances, span}

-- Threads at 1, 2 and 3; the first is linked to the second.
abbrev three_threads : Memory
three_threads a =
    if a == 1
    then some (item 2 0)
    else if a == 2
    then some (item 0 0)
    else if a == 3
    then some (item 0 0)
    else none

abbrev two_pooled : IsPool three_threads (sim_pool 1 2) (1 ∷ 2 ∷ [])
two_pooled =
    threads {xs = 1 ∷ []} (cons (record { address = omega arith; stored = refl }) refl nil)
      (record { address = omega arith; stored = refl }) refl

sim_pool_append-IsPool_example :
    (r : SimPoolList × Memory) × (sim_pool_append (sim_pool 1 2) 3 three_threads ≡ some r)
    × IsPool r.1 r.0 (1 ∷ 2 ∷ 3 ∷ [])
sim_pool_append-IsPool_example =
    sim_pool_append-IsPool two_pooled (record { address = omega arith; stored = refl }) refl

sim_pool_shift-IsPool_example :
    (r : (Ptr × SimPoolList) × Memory) × (sim_pool_shift (sim_pool 1 2) three_threads ≡ some r)
    × (r.0.0 ≡ 1)
    × IsPool r.1 r.0.1 (2 ∷ [])
sim_pool_shift-IsPool_example = sim_pool_shift-IsPool two_pooled

abbrev match_at : ℕ → ℕ → Match
match_at s e = record { start = s; end = e; last_match_end = 0 }

update_longest_match-span_example :
    (7 ≤ span (update_longest_match (match_at 10 14) (match_at 20 27)))
    × ((update_longest_match (match_at 10 14) (match_at 20 27)).start
        ≤ (update_longest_match (match_at 10 14) (match_at 20 27)).end)
    × (7 < span (update_longest_match (match_at 10 14) (match_at 20 27)) → (14 ≤ 20) × (20 ≤ 15))
update_longest_match-span_example =
    update_longest_match-span (match_at 10 14) (match_at 20 27) (omega arith) (omega arith)
      (omega arith)

next_start-Advances_example :
    (10 < next_start (match_at 10 14) true 10)
    × (true ≡ true → 14 < next_start (match_at 10 14) true 10)
next_start-Advances_example = next_start-Advances (match_at 10 14) true 10 (λ _. omega arith)

-- One thread in each pool, at 3, 1 and 2.
abbrev scattered : Memory
scattered a = if a == 1 || (a == 2 || (a == 3 || a == 4)) then some (item 0 0) else none

abbrev Single : (a : Ptr) → Type 0
Single a = IsPool scattered (sim_pool a a) (a ∷ [])

abbrev pool_1 : Single 1
pool_1 = threads {xs = []} nil (record { address = omega arith; stored = refl }) refl

abbrev pool_2 : Single 2
pool_2 = threads {xs = []} nil (record { address = omega arith; stored = refl }) refl

abbrev pool_3 : Single 3
pool_3 = threads {xs = []} nil (record { address = omega arith; stored = refl }) refl

release_all_threads-IsPool_example :
    (p : SimPoolList) × (m' : Memory) × (release_all_threads
        (pools (sim_pool 3 3) (sim_pool 1 1) (sim_pool 2 2))
        4
        scattered
      ≡ some (empty_but p, m'))
    × IsPool m' p (3 ∷ 1 ∷ 2 ∷ 4 ∷ [])
release_all_threads-IsPool_example =
    release_all_threads-IsPool pool_3 pool_1 pool_2 (λ a i. ground arith) (λ a i. ground arith)
      (record { address = omega arith; stored = refl }) refl
