-- ===== src/CharRange/Tests.antt =====
-- Runs of the character sets.
use regex.Base.{ℕ, ◌≡◌, refl, true, false, ◌∷◌, [], List}
use regex.Collations.{codes, collations, alnum}
use regex.CharRange.{update_range_w_collation}
use regex.CharRange.Classes.{
  update_range_w_collation-ClassResult, prefix_accepted, ClassResult, find_class,
}

abbrev no_characters : List ℕ
no_characters = 0 ∷ 0 ∷ []

update_range_w_collation-ClassResult_example :
    ClassResult
      (find_class collations (codes "digit") 5)
      no_characters
      true
      (update_range_w_collation (codes "digit") 5 no_characters true)
update_range_w_collation-ClassResult_example =
    update_range_w_collation-ClassResult (codes "digit") 5 no_characters true refl

prefix_accepted_example : (update_range_w_collation (codes "a") 1 no_characters false).0 ≡ true
prefix_accepted_example = prefix_accepted 0 1 alnum no_characters false refl refl
