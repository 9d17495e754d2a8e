-- ===== src/Nfa/Build.antt =====
-- The construction of an NFA, src/nfa.c: each operation takes fragments and gives the last node of a
-- new one, whose `parent` is the first. The allocator of src/nfa_alloc.c is an interface.
use regex.Base.{
  ℕ, zero, suc, ◌+◌, ◌-◌, ◌^◌, ◌/◌, Bool, true, false, Option, none, some, ◌==◌, if◌then◌else◌,
  replicate,
}
use regex.BitArray.{size_of_locale, bits_per_block}
use regex.Recognizer.Output.{◌>>=◌}
use regex.Nfa.{Nfa, NfaType, nfa_range, nfa_split, nfa_epsilon, nfa_accepting, nfa_backreference}

-- `nfa_alloc` gives the address of a free node, and `nfa_dealloc` takes one back.
pub record Allocator (A : Type 0) : Type 0 where
  pub nfa_alloc : A → ℕ × A
  pub nfa_dealloc : ℕ → A → A

-- An `NFACtrl` with the memory of its nodes.
pub record NfaCtrl (A : Type 0) : Type 0 where
  pub nodes : ℕ → Nfa
  pub alloc : A
  pub next_seq_id : ℕ
  pub next_interval_seq_id : ℕ

module _ {A : Type 0} (allocator : Allocator A) where
  -- A write to a node.
  unfoldable pub update : ℕ → (Nfa → Nfa) → NfaCtrl A → NfaCtrl A
  update p f ctrl = record ctrl { nodes = λ q. if q == p then f (ctrl.nodes q) else ctrl.nodes q }

  unfoldable pub mark_interval_nfa : ℕ → NfaCtrl A → NfaCtrl A
  unfolding update
  mark_interval_nfa p ctrl =
      if (ctrl.nodes p).id == 0
      then record (update p (λ n. record n { id = ctrl.next_interval_seq_id }) ctrl) {
        next_interval_seq_id = ctrl.next_interval_seq_id + 1;
      }
      else ctrl

  unfoldable pub mark_nfa : ℕ → NfaCtrl A → NfaCtrl A
  unfolding update
  mark_nfa p ctrl =
      if (ctrl.nodes p).id == 0
      then record (update p (λ n. record n { id = ctrl.next_seq_id }) ctrl) {
        next_seq_id = ctrl.next_seq_id + 1;
      }
      else ctrl

  -- The fields that `new_nfa` sets; the others are those that the memory holds.
  unfoldable pub new_nfa : NfaType → NfaCtrl A → ℕ × NfaCtrl A
  unfolding update
  new_nfa type ctrl =
      let (p, alloc) = allocator.nfa_alloc ctrl.alloc in
      (
        p,
        update p (λ n. record n { id = 0; type = type; parent = 0; out1 = 0; out2 = 0 })
            (record ctrl { alloc = alloc }),
      )

  -- `start->out1 = start->out2 = accept; accept->parent = start;`
  unfoldable pub link : ℕ → ℕ → NfaCtrl A → NfaCtrl A
  unfolding update
  link start accept ctrl =
      update accept (λ n. record n { parent = start })
        (update start (λ n. record n { out1 = accept; out2 = accept }) ctrl)

  unfoldable pub new_literal_nfa : ℕ → NfaType → NfaCtrl A → ℕ × NfaCtrl A
  unfolding new_nfa mark_nfa update link
  new_literal_nfa literal type ctrl =
      let (accept, c) = new_nfa nfa_accepting ctrl in
      let (start, c') = new_nfa type c in
      (
        accept,
        link start accept (update start (λ n. record n { literal = literal }) (mark_nfa start c')),
      )

  unfoldable pub new_backreference_nfa : ℕ → NfaCtrl A → ℕ × NfaCtrl A
  unfolding new_nfa update link
  new_backreference_nfa capture_group_id ctrl =
      let (start, c) = new_nfa nfa_backreference ctrl in
      let (accept, c') = new_nfa nfa_accepting c in
      (accept, link start accept (update start (λ n. record n { id = capture_group_id }) c'))

  unfoldable pub new_range_nfa : Bool → NfaCtrl A → ℕ × NfaCtrl A
  unfolding new_nfa mark_nfa update link
  new_range_nfa negate ctrl =
      let (start, c) = new_nfa nfa_range ctrl in
      let (accept, c') = new_nfa nfa_accepting c in
      let block = if negate then 2 ^ bits_per_block - 1 else 0 in
      (
        accept,
        link start accept (
            update start
              (λ n. record n { range = replicate (size_of_locale / bits_per_block) block })
              (mark_nfa start c')),
      )

  -- `while((target->value.type == NFA_EPSILON) && (target = target->out2));`, which may end with a
  -- null. The number bounds the rounds.
  unfoldable pub tighten : ℕ → ℕ → NfaCtrl A → Option ℕ
  tighten zero target ctrl = none
  tighten (suc k) target ctrl = elim ((ctrl.nodes target).type) [
    | nfa_epsilon ↦ elim ((ctrl.nodes target).out2 == 0) [
      | true ↦ some 0
      | false ↦ tighten k (ctrl.nodes target).out2 ctrl
    ]
    | _ ↦ some target
  ]

  -- The two nodes around a body: the start has the body's id.
  unfoldable pub surround : NfaType → ℕ → NfaCtrl A → ℕ × ℕ × NfaCtrl A
  unfolding new_nfa update
  surround type body ctrl =
      let (start, c) = new_nfa type ctrl in
      let (accept, c') = new_nfa nfa_accepting c in
      (start, accept, update start (λ n. record n { id = (c'.nodes (c'.nodes body).parent).id }) c')

  -- Up to the loop that looks for the target.
  unfoldable pub begin_kleene : ℕ → NfaCtrl A → ℕ × ℕ × NfaCtrl A
  unfolding surround update
  begin_kleene body ctrl =
      let (start, accept, c) = surround nfa_split body ctrl in
      let c' =
        update start (λ n. record n { literal = b'?'; out1 = accept; out2 = (c.nodes body).parent })
          c in
      (
        start,
        accept,
        update body (λ n. record n { type = nfa_split; literal = b'*'; out2 = accept }) c',
      )

  -- `body->out1 = target; accept->parent = start;`
  unfoldable pub end_kleene : ℕ → ℕ → ℕ → ℕ → NfaCtrl A → NfaCtrl A
  unfolding update
  end_kleene start accept body target ctrl =
      update accept (λ n. record n { parent = start })
        (update body (λ n. record n { out1 = target }) ctrl)

  unfoldable pub new_kleene_nfa : ℕ → ℕ → NfaCtrl A → Option (ℕ × NfaCtrl A)
  unfolding begin_kleene end_kleene tighten
  new_kleene_nfa fuel body ctrl =
      let (start, accept, c) = begin_kleene body ctrl in
      tighten fuel (c.nodes body).parent c >>= λ target.
      some (accept, end_kleene start accept body target c)

  unfoldable pub new_qmark_nfa : ℕ → NfaCtrl A → ℕ × NfaCtrl A
  unfolding surround update
  new_qmark_nfa body ctrl =
      let (start, accept, c) = surround nfa_split body ctrl in
      let c' =
        update start (λ n. record n { out1 = accept; out2 = (c.nodes body).parent; literal = b'?' })
          c in
      let c'' =
        update body (λ n. record n { type = nfa_epsilon; out1 = accept; out2 = accept }) c' in
      (accept, update accept (λ n. record n { parent = start }) c'')

  unfoldable pub new_posclosure_nfa : ℕ → ℕ → NfaCtrl A → Option (ℕ × NfaCtrl A)
  unfolding surround update tighten
  new_posclosure_nfa fuel body ctrl =
      let (start, accept, c) = surround nfa_epsilon body ctrl in
      let first = (c.nodes body).parent in
      let c' = update start (λ n. record n { out1 = first; out2 = first }) c in
      let c'' = update body (λ n. record n { type = nfa_split; literal = b'+' }) c' in
      tighten fuel (c''.nodes body).parent c'' >>= λ target. some (
        accept,
        update accept (λ n. record n { parent = start })
            (update body (λ n. record n { out1 = target; out2 = accept }) c''),
      )

  -- The first node of the second fragment takes the place of the last one of the first.
  unfoldable pub concatenate_nfa : ℕ → ℕ → NfaCtrl A → ℕ × NfaCtrl A
  unfolding update
  concatenate_nfa prev next ctrl =
      if next == 0
      then (prev, ctrl)
      else if prev == 0
      then (next, ctrl)
      else (let discard_node = (ctrl.nodes next).parent in
          let tmp = (ctrl.nodes prev).parent in
          let c = update prev (λ n. ctrl.nodes discard_node) ctrl in
          let c' = update next (λ n. record n { parent = tmp }) c in
          let c'' =
            update discard_node
              (λ n. record n { parent = discard_node; out1 = 0; out2 = 0; literal = 0 }) c' in
          (next, record c'' { alloc = allocator.nfa_dealloc discard_node c''.alloc }))
