-- ===== src/Dispatcher/Worker/Idle.antt =====
-- The callbacks run in the order of their submission, and the dispatcher is idle when all are done.
use mathlib.Core.Path.{subst}
use mathlib.Core.Option.{some-injective}
use mathlib.Core.List.{append_assoc}
use sync_harbor.Base.{
  ℕ, zero, suc, ◌+◌, ◌≡◌, refl, sym, ap, ◌∙◌, Option, none, some, List, [], ◌∷◌, ◌++◌, length,
  length-append, arith, ◌==◌, nat_eq,
}
use sync_harbor.Base.Int.{pos, is_zero, add_one, sub_one}
use sync_harbor.Queue.{Popped, gives, waits, ends, push, pop, empty_queue}
use sync_harbor.Queue.Laws.{pop-fifo}
use sync_harbor.Dispatcher.Worker.{
  Callbacks, new_callbacks, enter, push_entered, push_callback, take_popped, take_callback,
  finish_taken, finish_callback, is_idle,
}

module _ {T : Type 0} where
  abbrev in_hand : Option T → List T
  in_hand none = []
  in_hand (some command) = command ∷ []

  -- What is not done yet of what was pushed.
  abbrev pub waiting : Callbacks T → List T
  waiting d = in_hand d.under_way ++ d.queue.items

  -- Steps of the worker and of the threads that submit, with the commands pushed and the commands
  -- done so far.
  pub data History : List T → List T → Callbacks T → Type 0 where
    begins : History [] [] new_callbacks
    enters : {ins outs : List T} {d : Callbacks T} → History ins outs d → History ins outs (enter d)
    pushes :
        {ins outs : List T} {d d' : Callbacks T} (command : T)
        → History ins outs d
        → push_callback command d ≡ some d'
        → History (ins ++ (command ∷ [])) outs d'
    takes :
        {ins outs : List T} {d d' : Callbacks T}
        → History ins outs d
        → take_callback d ≡ some d'
        → History ins outs d'
    finishes :
        {ins outs : List T} {d d' : Callbacks T} {command : T}
        → History ins outs d
        → finish_callback d ≡ some (command, d')
        → History ins (outs ++ (command ∷ [])) d'

  record Balance (ins outs : List T) (d : Callbacks T) : Type 0 where
    in_order : ins ≡ outs ++ waiting d
    counted : d.active_count ≡ pos (d.entering + length (waiting d))

  push_entered-Balance :
      {ins outs : List T} (d d' : Callbacks T) (command : T) (n : ℕ)
      → d.entering ≡ n
      → push_entered n command d ≡ some d'
      → Balance ins outs d
      → Balance (ins ++ (command ∷ [])) outs d'
  unfolding push_entered push
  push_entered-Balance d d' command zero e h b = absurd (ground arith)
  push_entered-Balance {ins} {outs} d d' command (suc n) e h b =
      subst (Balance (ins ++ (command ∷ [])) outs) (some-injective _ _ h) (record {
        in_order = rw (b.in_order, append_assoc, append_assoc) refl;
        counted =
            b.counted
            ∙ ap pos (
                omega (
                  arith,
                  e,
                  length-append (in_hand d.under_way) d.queue.items,
                  length-append (in_hand d.under_way) (d.queue.items ++ (command ∷ [])),
                  length-append d.queue.items (command ∷ []),
                ));
      })

  take_popped-Balance :
      {ins outs : List T} (d d' : Callbacks T) (p : Popped T) (o : Option T)
      → pop d.queue ≡ p
      → d.under_way ≡ o
      → take_popped p o d ≡ some d'
      → Balance ins outs d
      → Balance ins outs d'
  unfolding take_popped
  take_popped-Balance {ins} {outs} d d' (gives command q) none f e h b =
      let same : waiting d ≡ command ∷ q.items =
        ap (λ o. in_hand o ++ d.queue.items) e ∙ pop-fifo d.queue f in
      subst (Balance ins outs) (some-injective _ _ h) (record {
        in_order = b.in_order ∙ ap (◌++◌ outs) same;
        counted = b.counted ∙ ap (λ l. pos (d.entering + length l)) same;
      })
  take_popped-Balance d d' (gives command q) (some x) f e h b = absurd (ground arith)
  take_popped-Balance d d' waits o f e h b = absurd (ground arith)
  take_popped-Balance d d' ends o f e h b = absurd (ground arith)

  finish_taken-Balance :
      {ins outs : List T} (d d' : Callbacks T) (command : T) (o : Option T)
      → d.under_way ≡ o
      → finish_taken o d ≡ some (command, d')
      → Balance ins outs d
      → Balance ins (outs ++ (command ∷ [])) d'
  unfolding finish_taken sub_one
  finish_taken-Balance d d' command none e h b = absurd (ground arith)
  finish_taken-Balance {ins} {outs} d d' command (some x) e h b =
      let same : waiting d ≡ x ∷ d.queue.items = ap (λ o. in_hand o ++ d.queue.items) e in
      let given = some-injective _ _ h in
      let moved : d.entering + suc (length d.queue.items)
          ≡ suc (d.entering + length d.queue.items) =
        omega arith in
      subst (λ r. Balance ins (outs ++ (r.0 ∷ [])) r.1) given
        (record {
          in_order =
              b.in_order ∙ ap (◌++◌ outs) same ∙ sym (append_assoc outs (x ∷ []) d.queue.items);
          counted =
              ap sub_one (b.counted ∙ ap (λ l. pos (d.entering + length l)) same ∙ ap pos moved);
        })

  History-Balance : {ins outs : List T} {d : Callbacks T} → History ins outs d → Balance ins outs d
  unfolding new_callbacks enter push_callback take_callback finish_callback empty_queue add_one
  History-Balance begins = record { in_order = refl; counted = refl }
  History-Balance (enters {d = d} h) =
      let b = History-Balance h in
      record { in_order = b.in_order; counted = ap add_one b.counted ∙ ap pos (omega arith) }
  History-Balance (pushes {d = d} {d' = d'} command h e) =
      push_entered-Balance d d' command d.entering refl e (History-Balance h)
  History-Balance (takes {d = d} {d' = d'} h e) =
      take_popped-Balance d d' (pop d.queue) d.under_way refl refl e (History-Balance h)
  History-Balance (finishes {d = d} {d' = d'} {command = x} h e) =
      finish_taken-Balance d d' x d.under_way refl e (History-Balance h)

  -- Under every interleaving of the worker with those that submit: the callbacks are done in the order
  -- in which their commands were pushed, and `isIdle` holds exactly if all of them are done and no call
  -- of `submit` is between its increment and its push.
  pub callbacks_in_order :
      {ins outs : List T} {d : Callbacks T}
      → History ins outs d
      → (ins ≡ outs ++ waiting d) × (is_idle d ≡ (d.entering + length (waiting d) == 0))
  unfolding is_idle is_zero
  callbacks_in_order h = let b = History-Balance h in (b.in_order, ground (arith, b.counted))
