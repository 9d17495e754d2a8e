-- ===== src/Slist/Tests.antt =====
-- Runs on the list of the data 7 and 8, at the addresses 1 and 2.
use regex.Base.{◌+◌, ◌≡◌, refl, none, some, ◌∷◌, [], arith, ◌==◌, if◌then◌else◌}
use regex.Base.Int.{pos}
use regex.Slist.Memory.{null, item, Memory, Slist, new_list}
use regex.Slist.Chain.{nil, cons}
use regex.Slist.Lookup.{IsList, list_iterate-fold}
use regex.Slist.Access.{list_search-first_answer, list_get_at-contents}
use regex.Slist.Walk.{list_search, list_get_at}
use regex.Slist.Whole.{list_iterate}

abbrev two_items : Memory
two_items a = if a == 1 then some (item 2 7) else if a == 2 then some (item 0 8) else none

abbrev two_list : Slist
two_list = record new_list { size = 2; head = 1; tail = 2 }

abbrev two_list-IsList : IsList two_items two_list (1 ∷ 2 ∷ [])
two_list-IsList = record {
  chain =
      cons (record { address = omega arith; stored = refl }) refl
        (cons (record { address = omega arith; stored = refl }) refl nil);
  counted = refl;
  ends = λ h. refl;
}

list_iterate-fold_example : list_iterate two_list (λ d s. s + d) 0 two_items ≡ some (15, two_items)
list_iterate-fold_example =
    list_iterate-fold two_items two_list (1 ∷ 2 ∷ []) (λ d s. s + d) 0 two_list-IsList

list_search-first_answer_example :
    list_search two_list (λ d. if d == 8 then 3 else null) two_items ≡ some (3, two_items)
list_search-first_answer_example =
    list_search-first_answer two_items two_list (1 ∷ 2 ∷ []) (λ d. if d == 8 then 3 else null)
      two_list-IsList

list_get_at-contents_example : list_get_at two_list (pos 1) two_items ≡ some (8, two_items)
list_get_at-contents_example =
    list_get_at-contents two_items two_list (1 ∷ 2 ∷ []) 1 two_list-IsList
