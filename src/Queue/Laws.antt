-- ===== src/Queue/Laws.antt =====
-- The queue is first in, first out, under every interleaving of its users.
use mathlib.Core.List.{append-nil, append_assoc}
use sync_harbor.Base.{◌≡◌, refl, ap, ◌∙◌, true, false, none, some, List, [], ◌∷◌, ◌++◌, arith}
use sync_harbor.Queue.{
  Queue, waits, gives, ends, empty_queue, push, push_all, try_pop, pop, is_empty, close, take_front,
  take_or_end, is_none,
}

module _ {ℓ} {T : Type ℓ} where
  push_all_lem : (q : Queue T) (xs : List T) → push_all q xs ≡ record q { items = q.items ++ xs }
  unfolding push_all
  push_all_lem q [] = rw append-nil
  push_all_lem q (x ∷ xs) = push_all_lem (push q x) xs ∙ rw append_assoc

  -- One step of some user, with what it puts in and what it takes out.
  pub data Step (q : Queue T) : List T → List T → Queue T → Type ℓ where
    pushes : (x : T) → Step q (x ∷ []) [] (push q x)
    pushes_all : (xs : List T) → Step q xs [] (push_all q xs)
    tries : {x : T} {q' : Queue T} → try_pop q ≡ some (x, q') → Step q [] (x ∷ []) q'
    takes : {x : T} {q' : Queue T} → pop q ≡ gives x q' → Step q [] (x ∷ []) q'
    closes : Step q [] [] (close q)

  -- Steps from the empty queue, with all that was put in and taken out so far.
  pub data History : List T → List T → Queue T → Type ℓ where
    begins : History [] [] empty_queue
    goes_on :
        {ins outs xs ys : List T} {q q' : Queue T}
        → History ins outs q
        → Step q xs ys q'
        → History (ins ++ xs) (outs ++ ys) q'

  take_front-fifo :
      (l : List T) (q : Queue T) {x : T} {q' : Queue T}
      → take_front l q ≡ some (x, q')
      → l ≡ x ∷ q'.items
  unfolding take_front
  take_front-fifo [] q e = cc
  take_front-fifo (y ∷ l) q e = ground arith

  take_or_end-fifo :
      (l : List T) (q : Queue T) {x : T} {q' : Queue T}
      → take_or_end l q ≡ gives x q'
      → l ≡ x ∷ q'.items
  unfolding take_or_end
  take_or_end-fifo [] q e = ground arith
  take_or_end-fifo (y ∷ l) q e = ground arith

  pub pop-fifo : (q : Queue T) {x : T} {q' : Queue T} → pop q ≡ gives x q' → q.items ≡ x ∷ q'.items
  unfolding pop
  pop-fifo q e = take_or_end-fifo q.items q e

  Step-fifo :
      {q : Queue T} {xs ys : List T} {q' : Queue T}
      → Step q xs ys q'
      → q.items ++ xs ≡ ys ++ q'.items
  unfolding push try_pop pop close
  Step-fifo {q} (pushes x) = refl
  Step-fifo {q} (pushes_all xs) = rw (push_all_lem q xs)
  Step-fifo {q} (tries e) = append-nil q.items ∙ take_front-fifo q.items q e
  Step-fifo {q} (takes e) = append-nil q.items ∙ take_or_end-fifo q.items q e
  Step-fifo {q} closes = append-nil q.items

  -- Whatever the interleaving of pushes, pops and closing, what was taken out followed by what is
  -- still in the queue is what was put in, in the order in which it was put in.
  pub History-fifo : {ins outs : List T} {q : Queue T} → History ins outs q → ins ≡ outs ++ q.items
  unfolding empty_queue
  History-fifo begins = refl
  History-fifo (goes_on {ins} {outs} {xs} {ys} {q} {q'} h s) =
      rw (History-fifo h, append_assoc, append_assoc) (ap (◌++◌ outs) (Step-fifo s))

  take_or_end_lem :
      (l : List T) (q : Queue T)
      → (take_or_end l q ≡ (elim (take_front l q) [
        | some (x, q') ↦ gives x q'
        | none ↦ elim q.closed [ true ↦ ends | false ↦ waits ]
      ]))
        × (is_none l ≡ (elim (take_front l q) [ some _ ↦ false | none ↦ true ]))
  unfolding take_or_end take_front is_none
  take_or_end_lem [] q = (refl, refl)
  take_or_end_lem (x ∷ l) q = (refl, refl)

  -- `pop` gives the front while there is one, closed or not, so a closed queue is drained first; on
  -- an empty queue it ends if the queue is closed and waits if not. `try_pop` differs only in
  -- failing where `pop` waits or ends.
  pub pop_lem :
      (q : Queue T)
      → (pop q ≡ (elim (try_pop q) [
        | some (x, q') ↦ gives x q'
        | none ↦ elim q.closed [ true ↦ ends | false ↦ waits ]
      ]))
        × (is_empty q ≡ (elim (try_pop q) [ some _ ↦ false | none ↦ true ]))
  unfolding pop try_pop is_empty
  pop_lem q = take_or_end_lem q.items q
