-- ===== src/Dispatcher/Worker.antt =====
-- `submit`, `worker` and `isIdle` of src/CallbackDispatcher.cpp. Each function is one atomic step of the
-- worker or of a thread that submits; a callback that throws stays under way.
pub mod Idle
use sync_harbor.Base.{ℕ, zero, suc, Bool, Option, none, some, List, [], ◌∷◌}
use sync_harbor.Base.Int.{ℤ, pos, add_one, sub_one, is_zero}
use sync_harbor.Queue.{Queue, Popped, waits, gives, ends, empty_queue, push, pop}

-- `entering` counts the calls of `submit` between their increment and their push; `under_way` is the
-- worker's `command`, from `pop` to the decrement.
pub record Callbacks (T : Type 0) : Type 0 where
  pub queue : Queue T
  pub under_way : Option T
  pub entering : ℕ
  pub active_count : ℤ

module _ {T : Type 0} where
  unfoldable pub new_callbacks : Callbacks T
  unfolding empty_queue
  new_callbacks = record {
    queue = empty_queue;
    under_way = none;
    entering = 0;
    active_count = pos 0;
  }

  -- `_active_count.increment()` of `submit`
  unfoldable pub enter : Callbacks T → Callbacks T
  unfolding add_one
  enter d = record d { entering = suc d.entering; active_count = add_one d.active_count }

  push_entered : ℕ → T → Callbacks T → Option (Callbacks T)
  push_entered zero command d = none
  push_entered (suc n) command d = some (record d { queue = push d.queue command; entering = n })

  -- `_queue.push` of a call of `submit` that has entered
  unfoldable pub push_callback : T → Callbacks T → Option (Callbacks T)
  unfolding push push_entered
  push_callback command d = push_entered d.entering command d

  take_popped : Popped T → Option T → Callbacks T → Option (Callbacks T)
  take_popped (gives command q) none d = some (record d { queue = q; under_way = some command })
  take_popped _ _ d = none

  -- `_queue.pop` of the worker, which has no command; `none` while it waits and after it ended.
  unfoldable pub take_callback : Callbacks T → Option (Callbacks T)
  unfolding pop take_popped
  take_callback d = take_popped (pop d.queue) d.under_way d

  finish_taken : Option T → Callbacks T → Option (T × Callbacks T)
  finish_taken none d = none
  finish_taken (some command) d =
      some (command, record d { under_way = none; active_count = sub_one d.active_count })

  -- The end of the worker's turn, whose callback has returned: `needRepeat` is false of every command.
  unfoldable pub finish_callback : Callbacks T → Option (T × Callbacks T)
  unfolding sub_one finish_taken
  finish_callback d = finish_taken d.under_way d

  -- `isIdle`
  unfoldable pub is_idle : Callbacks T → Bool
  unfolding is_zero
  is_idle d = is_zero d.active_count
