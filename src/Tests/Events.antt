-- ===== src/Tests/Events.antt =====
-- The registry, the queue and the names of the enumerations.
use sync_harbor.Base.{ℕ, String, ◌≡◌, refl, List, [], ◌∷◌, ◌++◌, string_eq}
use sync_harbor.Utils.Kinds.{ChangeType, change_type_eq}
use sync_harbor.Utils.Names.{}
use sync_harbor.Registry.{Registry}
use sync_harbor.Queue.{Queue, empty_queue, push, pop, close}
use sync_harbor.Queue.Laws.{pushes, takes, closes, History, begins, goes_on, History-fifo}

abbrev expected_events : Registry String
expected_events = ("a", ChangeType.created) ∷ []

abbrev two_items : Queue ℕ
two_items = push (push empty_queue 3) 5

-- Two pushes, a pop and a close.
short-History : History (3 ∷ 5 ∷ []) (3 ∷ []) (close (record two_items { items = 5 ∷ [] }))
unfolding pop push empty_queue
short-History =
    goes_on (goes_on (goes_on (goes_on begins (pushes 3)) (pushes 5)) (takes refl)) closes

History-fifo_example : ◌≡◌ {A = List ℕ} (3 ∷ 5 ∷ []) ((3 ∷ []) ++ (5 ∷ []))
unfolding close
History-fifo_example = History-fifo short-History
