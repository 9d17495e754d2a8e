-- ===== src/BoyerMoore/Iterate.antt =====
-- The iterator over the matches, src/boyer_moore.c `bm_next_match`.
use regex.Base.{
  ℕ, zero, suc, ◌+◌, ◌≤◌, ◌<◌, ◌≡◌, refl, ◌∙◌, true, false, Option, none, some, List, [], ◌∷◌,
  arith, ◌==◌, if◌then◌else◌, length, get_elem?, Bool-cases, inl, inr,
}
use regex.BoyerMoore.{BmObj, MatchRecord, bm_next_match}

get_elem-end : (xs : List MatchRecord) → get_elem? xs (length xs) ≡ none
get_elem-end [] = refl
get_elem-end (x ∷ xs) = get_elem-end xs

module _ {T : Type 0} where
  -- The last of `k + 1` calls.
  abbrev pub calls : ℕ → BmObj T → Option MatchRecord × BmObj T
  calls zero obj = bm_next_match obj
  calls (suc k) obj = calls k (bm_next_match obj).1

  abbrev pub with_iter : BmObj T → Option ℕ → BmObj T
  with_iter obj i = record obj { iter = i }

  first_call :
      (obj : BmObj T) (x : MatchRecord) (xs : List MatchRecord)
      → obj.matches ≡ x ∷ xs
      → bm_next_match (with_iter obj none) ≡ (some x, with_iter obj (some 1))
  unfolding bm_next_match
  first_call obj x xs e = rw e refl

  inner_call :
      (obj : BmObj T) (x : MatchRecord) (xs : List MatchRecord) (i : ℕ)
      → obj.matches ≡ x ∷ xs
      → (i == length obj.matches) ≡ false
      → bm_next_match (with_iter obj (some i))
        ≡ (get_elem? obj.matches i, with_iter obj (some (i + 1)))
  unfolding bm_next_match
  inner_call obj x xs i e n = ground arith

  last_call :
      (obj : BmObj T) (x : MatchRecord) (xs : List MatchRecord) (i : ℕ)
      → obj.matches ≡ x ∷ xs
      → (i == length obj.matches) ≡ true
      → bm_next_match (with_iter obj (some i)) ≡ (none, with_iter obj none)
  unfolding bm_next_match
  last_call obj x xs i e n = ground arith

  inner_calls :
      (k i : ℕ) (obj : BmObj T) (x : MatchRecord) (xs : List MatchRecord)
      → obj.matches ≡ x ∷ xs
      → i + k < length obj.matches
      → calls k (with_iter obj (some i))
        ≡ (get_elem? obj.matches (i + k), with_iter obj (some (i + k + 1)))
  inner_calls zero i obj x xs e b =
      let z : i + 0 ≡ i = omega arith in rw z (inner_call obj x xs i e (ground arith))
  inner_calls (suc k) i obj x xs e b =
      let h : i + suc k ≡ i + 1 + k = omega arith in
      rw (inner_call obj x xs i e (ground arith), h)
        (inner_calls k (i + 1) obj x xs e (omega arith))

  end_calls :
      (k i : ℕ) (obj : BmObj T) (x : MatchRecord) (xs : List MatchRecord)
      → obj.matches ≡ x ∷ xs
      → i + k ≡ length obj.matches
      → calls k (with_iter obj (some i)) ≡ (none, with_iter obj none)
  end_calls zero i obj x xs e b = last_call obj x xs i e (ground arith)
  end_calls (suc k) i obj x xs e b =
      rw (inner_call obj x xs i e (ground arith)) (end_calls k (i + 1) obj x xs e (omega arith))

  -- From a fresh iterator over matches of which there is one at least, the calls hand out the
  -- matches one by one, in order; the call behind the last match gives none, and makes the iterator
  -- fresh again.
  pub bm_next_match-calls :
      (k : ℕ) (obj : BmObj T) (x : MatchRecord) (xs : List MatchRecord)
      → obj.matches ≡ x ∷ xs
      → k ≤ length obj.matches
      → calls k (with_iter obj none) ≡ (
        get_elem? obj.matches k,
        with_iter obj (if k == length obj.matches then none else some (k + 1)),
      )
  bm_next_match-calls zero obj x xs e b =
      let more : (0 == length obj.matches) ≡ false = rw e (ground arith) in
      first_call obj x xs e ∙ rw (more, e) refl
  bm_next_match-calls (suc k) obj x xs e b = elim (Bool-cases (suc k == length obj.matches)) [
    | inl at_end ↦
        let n : suc k ≡ length obj.matches = ground arith in
        rw (first_call obj x xs e, at_end, n, get_elem-end obj.matches)
          (end_calls k 1 obj x xs e (omega arith))
    | inr more ↦
        let n : suc k ≡ 1 + k = omega arith in
        rw (first_call obj x xs e, more, n) (inner_calls k 1 obj x xs e (ground arith))
  ]
