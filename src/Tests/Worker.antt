-- ===== src/Tests/Worker.antt =====
-- The dispatcher's worker with two callbacks, the second of which is under way.
use sync_harbor.Base.{ℕ, nat_eq, ◌≡◌, refl, false, some, [], ◌∷◌, ◌++◌}
use sync_harbor.Base.Int.{pos}
use sync_harbor.Dispatcher.Worker.{
  Callbacks, new_callbacks, enter, push_callback, take_callback, finish_callback, is_idle,
}
use sync_harbor.Dispatcher.Worker.Idle.{
  History, begins, enters, pushes, takes, finishes, waiting, callbacks_in_order,
}

-- Both callbacks are submitted; the first is done.
abbrev second_under_way : Callbacks ℕ
second_under_way = record {
  queue = record { items = []; closed = false };
  under_way = some 8;
  entering = 0;
  active_count = pos 1;
}

two_submitted : History (7 ∷ 8 ∷ []) (7 ∷ []) second_under_way
unfolding new_callbacks enter push_callback take_callback finish_callback
two_submitted =
    takes (finishes (takes (pushes 8 (pushes 7 (enters (enters begins)) refl) refl) refl) refl) refl

callbacks_in_order_example :
    ((7 ∷ 8 ∷ []) ≡ (7 ∷ []) ++ waiting second_under_way) × (is_idle second_under_way ≡ false)
unfolding nat_eq
callbacks_in_order_example = callbacks_in_order two_submitted
