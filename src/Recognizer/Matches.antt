-- ===== src/Recognizer/Matches.antt =====
-- The match that a search keeps, src/recognizer.c. A position is an address, and 0 is null.
use regex.Base.{
  ℕ, zero, suc, ◌+◌, Bool, not, ◌&&◌, ◌||◌, Option, none, some, ltb, leb, ◌==◌, if◌then◌else◌,
}
use regex.BoyerMoore.{MatchRecord}

pub record Match : Type 0 where
  pub start : ℕ
  pub end : ℕ
  pub last_match_end : ℕ

-- The lengths `end - start` are compared, and a start at the end or right behind it extends.
unfoldable pub update_longest_match : Match → Match → Match
update_longest_match m nm =
    if m.end == 0 || ltb (m.end + nm.start) (nm.end + m.start)
    then record m { start = nm.start; end = nm.end }
    else if leb m.end nm.start && leb nm.start (m.end + 1)
    then record m { end = nm.end }
    else m

unfoldable pub update_match : Match → ℕ → Match
update_match m cur_pos =
    if m.start == 0 then record m { start = cur_pos; end = cur_pos } else record m { end = cur_pos }

-- `while((mr = kw_next_match(obj)) != NULL && mr->beg <= end)`: `kw_next_match` is the iterator of
-- a keyword search on its object.
unfoldable pub skip_matches :
    {S : Type 0} → (S → Option MatchRecord × S) → ℕ → S → ℕ → Option (Option MatchRecord × S)
skip_matches kw_next_match zero obj end = none
skip_matches kw_next_match (suc k) obj end = elim ((kw_next_match obj).0) [
  | none ↦ some (none, (kw_next_match obj).1)
  | some mr ↦
      let rest = skip_matches kw_next_match k (kw_next_match obj).1 end in
      if leb mr.beg end then rest else some (some mr, (kw_next_match obj).1)
]

-- The pointer at the next start: `none` is the empty string, which makes the recognizer quit.
abbrev pub start_of : Option MatchRecord → Option ℕ
start_of none = none
start_of (some mr) = some mr.beg

-- Without a keyword search.
unfoldable pub next_start : Match → Bool → ℕ → ℕ
next_start m current_run input_pointer =
    if not current_run || m.end == 0 then input_pointer + 1 else m.end + 1

-- With a keyword search, whose object is the state.
unfoldable pub next_keyword :
    {S : Type 0} → (S → Option MatchRecord × S) → ℕ → Match → Bool → S → Option (Option ℕ × S)
unfolding skip_matches
next_keyword kw_next_match fuel m current_run obj =
    if not current_run || m.end == 0
    then some (start_of (kw_next_match obj).0, (kw_next_match obj).1)
    else elim (skip_matches kw_next_match fuel obj m.end) [
      | none ↦ none
      | some (mr, obj') ↦ some (start_of mr, obj')
    ]
