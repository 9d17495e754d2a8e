-- ===== src/CharRange/Classes.antt =====
-- Named classes in a bracket expression, `update_range_w_collation`.
use regex.Base.{
  ℕ, zero, suc, ◌<◌, ◌≡◌, refl, Bool, true, false, not, ◌&&◌, ◌||◌, Option, none, some, List, [],
  ◌∷◌, arith, leb, ◌==◌, if◌then◌else◌, length, take, get_elem?, Bool-cases, inl, inr, ◌∙◌,
}
use regex.Collations.{CollRange, NamedCollation, collations, in_ranges, blank, xdigit, space, codes}
use regex.CharRange.{
  new_range, update_range_nfa, update_range_w_collation, search_collations, add_ranges, strncmp_eq,
  is_literal_in_range,
}
use regex.CharRange.Laws.{IsRange, in_range-update, update-IsRange, in_range-new, new_range-IsRange}

-- Every range of the list ends below 128.
abbrev pub IsAscii : List CollRange → Type 0
IsAscii [] = Unit
IsAscii (k ∷ ks) = (k.high < 128) × IsAscii ks

abbrev pub AllAscii : List NamedCollation → Type 0
AllAscii [] = Unit
AllAscii (k ∷ ks) = IsAscii k.ranges × AllAscii ks

collations-AllAscii : AllAscii collations
collations-AllAscii = omega arith

-- The members of a set after `member`, the characters to add or take away.
abbrev pub updated : Bool → Bool → Bool → Bool
updated true member old = not member && old
updated false member old = member || old

-- The first class whose name begins like `name`, as far as `len` characters.
abbrev pub find_class : List NamedCollation → List ℕ → ℕ → Option NamedCollation
find_class [] name len = none
find_class (k ∷ ks) name len = if strncmp_eq len name k.name then some k else find_class ks name len

module _ (c : ℕ) (negate : Bool) where
  in_range-add_ranges :
      (ks : List CollRange) (r : List ℕ)
      → IsAscii ks
      → IsRange r
      → is_literal_in_range (add_ranges ks r negate) c
        ≡ updated negate (in_ranges ks c) (is_literal_in_range r c)
  unfolding add_ranges
  in_range-add_ranges [] r a v = ground arith
  in_range-add_ranges (k ∷ ks) r a v = ground (
    arith,
    in_range-add_ranges ks (update_range_nfa k.low k.high r negate) a.1
        (update-IsRange k.low k.high r negate v),
    in_range-update c k.low k.high r negate v a.0,
  )

-- What the caller gets: no class and the same set, or the set updated by the class found.
abbrev pub ClassResult : Option NamedCollation → List ℕ → Bool → Bool × List ℕ → Type 0
ClassResult none r negate (found, r') = (found ≡ false) × (r' ≡ r)
ClassResult (some k) r negate (found, r') =
    (found ≡ true)
    × ((c : ℕ)
        → is_literal_in_range r' c
          ≡ updated negate (in_ranges k.ranges c) (is_literal_in_range r c))

search-ClassResult :
    (ks : List NamedCollation) (name : List ℕ) (len : ℕ) (r : List ℕ) (negate : Bool)
    → AllAscii ks
    → IsRange r
    → ClassResult (find_class ks name len) r negate (search_collations ks name len r negate)
unfolding search_collations
search-ClassResult [] name len r negate a v = (refl, refl)
search-ClassResult (k ∷ ks) name len r negate a v = elim (Bool-cases (strncmp_eq len name k.name)) [
  | inl hit ↦ rw hit (refl, λ c. in_range-add_ranges c negate k.ranges r a.0 v)
  | inr miss ↦ rw miss (search-ClassResult ks name len r negate a.1 v)
]

-- The set after a named class: the class is the first of the table that agrees with the name on
-- the characters given, its members are added (or taken away in a negated expression), all other
-- characters keep their membership; with no such class nothing changes and the result says so.
pub update_range_w_collation-ClassResult :
    (name : List ℕ) (len : ℕ) (r : List ℕ) (negate : Bool)
    → IsRange r
    → ClassResult
        (find_class collations name len)
        r
        negate
        (update_range_w_collation name len r negate)
unfolding update_range_w_collation
update_range_w_collation-ClassResult name len r negate v =
    search-ClassResult collations name len r negate collations-AllAscii v

-- A class alone in a bracket expression.
abbrev pub class_of : List ℕ → List ℕ
class_of name = (update_range_w_collation name (length name) (new_range false) false).1

class_of-ranges :
    (name : List ℕ) (k : NamedCollation) (c : ℕ)
    → find_class collations name (length name) ≡ some k
    → is_literal_in_range (class_of name) c ≡ in_ranges k.ranges c
class_of-ranges name k c e =
    let result =
      update_range_w_collation-ClassResult name (length name) (new_range false) false
        (new_range-IsRange false) in
    let known : ClassResult (some k) (new_range false) false
        (update_range_w_collation name (length name) (new_range false) false) =
      rw e at result in
    ground (arith, known.1 c, in_range-new false c)

-- The classes as the table has them: `[:blank:]` is the space and the vertical tab, not the tab;
-- `[:space:]` holds every character from 2 to 32; `[:xdigit:]` is A to N and a to f with no digit.
pub class_members :
    (c : ℕ)
    → (is_literal_in_range (class_of (codes "blank")) c ≡ ((c == 32) || (c == 11)))
      × (is_literal_in_range (class_of (codes "space")) c ≡ (leb 2 c && leb c 32))
      × (is_literal_in_range (class_of (codes "xdigit")) c
          ≡ ((leb 65 c && leb c 78) || (leb 97 c && leb c 102)))
unfolding strncmp_eq
class_members c = (
  class_of-ranges (codes "blank") blank c refl ∙ ground arith,
  class_of-ranges (codes "space") space c refl ∙ ground arith,
  class_of-ranges (codes "xdigit") xdigit c refl ∙ ground arith,
)

-- A name cut short agrees with the whole name.
strncmp_eq-take : (n : ℕ) (s : List ℕ) → strncmp_eq (length (take n s)) (take n s) s ≡ true
unfolding strncmp_eq
strncmp_eq-take zero s = refl
strncmp_eq-take (suc n) [] = refl
strncmp_eq-take (suc n) (x ∷ s) = ground (arith, strncmp_eq-take n s)

find_class-hit :
    (ks : List NamedCollation) (i : ℕ) (k : NamedCollation) (name : List ℕ) (len : ℕ)
    → get_elem? ks i ≡ some k
    → strncmp_eq len name k.name ≡ true
    → (j : NamedCollation) × (find_class ks name len ≡ some j)
find_class-hit [] i k name len at hit = absurd (none_some at)
  where
    none_some : none ≡ some k → ⊥
    none_some e = cc
find_class-hit (m ∷ ks) zero k name len at hit = (m, ground arith)
find_class-hit (m ∷ ks) (suc i) k name len at hit = elim (Bool-cases (strncmp_eq len name m.name)) [
  | inl here ↦ (m, rw here)
  | inr on ↦ let (j, e) = find_class-hit ks i k name len at hit in (j, rw on e)
]

-- Every beginning of the name of a class is taken for a class: the search never reports it as
-- unknown, although only the whole names are documented.
pub prefix_accepted :
    (i n : ℕ) (k : NamedCollation) (r : List ℕ) (negate : Bool)
    → get_elem? collations i ≡ some k
    → IsRange r
    → (update_range_w_collation (take n k.name) (length (take n k.name)) r negate).0 ≡ true
prefix_accepted i n k r negate at v =
    let (j, e) =
      find_class-hit collations i k (take n k.name) (length (take n k.name)) at
        (strncmp_eq-take n k.name) in
    let result =
      update_range_w_collation-ClassResult (take n k.name) (length (take n k.name)) r negate v in
    let known : ClassResult (some j) r negate
        (update_range_w_collation (take n k.name) (length (take n k.name)) r negate) =
      rw e at result in
    known.0
