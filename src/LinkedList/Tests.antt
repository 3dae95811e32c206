-- ===== src/LinkedList/Tests.antt =====
-- A list at address 100 with the nodes 200 and 300.
use xbay_os.Base.{◌≡◌, refl, [], ◌∷◌}
use xbay_os.Intr.{intr_off, intr_on, bracket}
use xbay_os.LinkedList.{Links, tail, init, push_back, remove}
use xbay_os.LinkedList.Seg.{IsList, IsFresh, SameOutside}
use xbay_os.LinkedList.Ends.{init-IsList, push_back-IsList}
use xbay_os.LinkedList.Remove.{remove-IsList}

abbrev blank : Links
blank = record { intr = intr_on; next = λ a. 0; prev = λ a. 0 }

abbrev one : Links
one = push_back intr_off 100 200 (init 100 blank)

abbrev two : Links
two = push_back intr_off 100 300 one

one-IsList : IsList one 100 (200 ∷ [])
one-IsList =
    (push_back-IsList intr_off (init 100 blank) 100 200 [] (init-IsList 100 blank).0 refl).0

two-IsList : IsList two 100 (200 ∷ 300 ∷ [])
two-IsList = (push_back-IsList intr_off one 100 300 (200 ∷ []) one-IsList refl).0

push_back-IsList_example :
    IsList (push_back intr_off 100 400 two) 100 (200 ∷ 300 ∷ 400 ∷ [])
    × SameOutside (400 ∷ tail 100 ∷ 300 ∷ []) two (push_back intr_off 100 400 two)
    × ((push_back intr_off 100 400 two).intr ≡ bracket intr_off two.intr)
push_back-IsList_example = push_back-IsList intr_off two 100 400 (200 ∷ 300 ∷ []) two-IsList refl

remove-IsList_example :
    IsList (remove intr_off 200 two) 100 (300 ∷ [])
    × IsFresh 100 (300 ∷ []) 200
    × ((remove intr_off 200 two).intr ≡ bracket intr_off two.intr)
remove-IsList_example = remove-IsList intr_off two 100 [] 200 (300 ∷ []) two-IsList
