-- ===== src/Changes/Flight.antt =====
-- The commands of a change under way: submitted to the HTTP client or to the dispatcher, and not
-- finished. They finish in any order (`completionCallback` of src/commands.cpp), or are dropped
-- after a request that failed (`HttpClient::largeRequestsWorker` of src/Networking.cpp).
use sync_harbor.Base.{
  ℕ, zero, suc, ◌+◌, ◌<◌, ◌≡◌, refl, ap, ◌∙◌, Bool, List, [], ◌∷◌, ◌++◌, nat_eq, arith,
  if◌then◌else◌,
}
use sync_harbor.Base.Int.{pos, sub_one, is_one}
use sync_harbor.Changes.Command.{
  Command, command, Commands, end, next, next_commands, to_list, size, sizes,
}
use sync_harbor.Changes.Change.{Change, on_command_finished}
use sync_harbor.Changes.Factory.Coverage.{chain_size}

pub record Flight : Type 0 where
  pub change : Change
  pub commands : List Command
  -- How often `_on_complete` was called.
  pub completions : ℕ

-- Right after `dispatch`.
unfoldable pub dispatched : Change → Flight
dispatched ch = record { change = ch; commands = ch.cmd_chain; completions = 0 }

-- The end of each `completionCallback`: `onCommandFinished`, then `continueChain`.
unfoldable pub finish : Flight → List Command → Command → List Command → Flight
unfolding next_commands to_list on_command_finished
finish f before c after =
    let (change, complete) = on_command_finished f.change in
    record {
      change = change;
      commands = before ++ (after ++ to_list (next_commands c));
      completions = if complete then suc f.completions else f.completions;
    }

-- A request that failed is destroyed with the commands behind it; its owner is not told.
unfoldable pub drop : Flight → List Command → List Command → Flight
drop f before after = record f { commands = before ++ after }

-- Some commands of the start have finished, and some were lost with a failed request.
pub data Run (start : Flight) : ℕ → ℕ → Flight → Type 0 where
  begins : Run start 0 0 start
  finishes :
      {done lost : ℕ} {f : Flight} (before after : List Command) (c : Command)
      → Run start done lost f
      → f.commands ≡ before ++ (c ∷ after)
      → Run start (suc done) lost (finish f before c after)
  fails :
      {done lost : ℕ} {f : Flight} (before after : List Command) (c : Command)
      → Run start done lost f
      → f.commands ≡ before ++ (c ∷ after)
      → Run start done (size c + lost) (drop f before after)

chain_size-append : (cs ds : List Command) → chain_size (cs ++ ds) ≡ chain_size cs + chain_size ds
unfolding chain_size
chain_size-append [] ds = omega arith
chain_size-append (c ∷ cs) ds = omega (arith, chain_size-append cs ds)

chain_size-to_list : (cs : Commands) → chain_size (to_list cs) ≡ sizes cs
unfolding chain_size sizes to_list
chain_size-to_list end = refl
chain_size-to_list (next c cs) = ap (◌+◌ (size c)) (chain_size-to_list cs)

size-next_commands : (c : Command) → size c ≡ suc (sizes (next_commands c))
unfolding size next_commands
size-next_commands (command kind cid dto nexts) = refl

-- The commands still to finish, those lost among them.
abbrev open_commands : ℕ → Flight → ℕ
open_commands lost f = lost + chain_size f.commands

-- The calls of `_on_complete` that are due with so many commands still to finish.
abbrev pub calls_due : ℕ → ℕ
calls_due zero = 1
calls_due (suc n) = 0

record Counted (lost : ℕ) (f : Flight) : Type 0 where
  counts : f.change.pending_cmds ≡ pos (open_commands lost f)
  completes : f.completions ≡ calls_due (open_commands lost f)

chain_size-split :
    (cs before after : List Command) (c : Command)
    → cs ≡ before ++ (c ∷ after)
    → chain_size cs ≡ size c + chain_size (before ++ after)
unfolding chain_size
chain_size-split cs before after c e =
    ap chain_size e
    ∙ omega (arith, chain_size-append before (c ∷ after), chain_size-append before after)

on_command_finished_lem :
    (ch : Change) (n : ℕ)
    → ch.pending_cmds ≡ pos (suc n)
    → ((on_command_finished ch).0.pending_cmds ≡ pos n)
      × ((if (on_command_finished ch).1 then 1 else 0) ≡ calls_due n)
unfolding on_command_finished is_one sub_one
on_command_finished_lem ch zero e = (ground (arith, e), ground (arith, e))
on_command_finished_lem ch (suc n) e = (ground (arith, e), ground (arith, e))

chain_size-finish :
    (f : Flight) (before after : List Command) (c : Command)
    → f.commands ≡ before ++ (c ∷ after)
    → chain_size f.commands ≡ suc (chain_size (finish f before c after).commands)
unfolding finish
chain_size-finish f before after c e =
    chain_size-split f.commands before after c e
    ∙ omega (
      arith,
      size-next_commands c,
      chain_size-append before after,
      chain_size-append before (after ++ to_list (next_commands c)),
      chain_size-append after (to_list (next_commands c)),
      chain_size-to_list (next_commands c),
    )

calls_due_now :
    (complete : Bool) (calls due : ℕ)
    → (if complete then 1 else 0) ≡ due
    → calls ≡ 0
    → (if complete then suc calls else calls) ≡ due
calls_due_now complete calls due e none_yet = ground (arith, e, none_yet)

finish-Counted :
    {lost : ℕ} (f : Flight) (before after : List Command) (c : Command)
    → f.commands ≡ before ++ (c ∷ after)
    → Counted lost f
    → Counted lost (finish f before c after)
unfolding finish
finish-Counted {lost} f before after c e v =
    let size_lem = chain_size-finish f before after c e in
    let still_open : open_commands lost f ≡ suc (open_commands lost (finish f before c after)) =
      omega (arith, size_lem) in
    let counter =
      on_command_finished_lem f.change (open_commands lost (finish f before c after))
        (v.counts ∙ ap pos still_open) in
    record {
      counts = counter.0;
      completes =
          calls_due_now _ f.completions _ (counter.1) (v.completes ∙ ap calls_due still_open);
    }

drop_open :
    (lost : ℕ) (f : Flight) (before after : List Command) (c : Command)
    → f.commands ≡ before ++ (c ∷ after)
    → open_commands lost f ≡ open_commands (size c + lost) (drop f before after)
unfolding drop
drop_open lost f before after c e = omega (arith, chain_size-split f.commands before after c e)

drop-Counted :
    {lost : ℕ} (f : Flight) (before after : List Command) (c : Command)
    → f.commands ≡ before ++ (c ∷ after)
    → Counted lost f
    → Counted (size c + lost) (drop f before after)
unfolding drop
drop-Counted {lost} f before after c e v =
    let same = drop_open lost f before after c e in
    record { counts = v.counts ∙ ap pos same; completes = v.completes ∙ ap calls_due same }

nothing_due : (n : ℕ) → 0 < n → 0 ≡ calls_due n
nothing_due zero p = omega (arith, p)
nothing_due (suc n) p = refl

Run-Counted :
    (ch : Change) {done lost : ℕ} {f : Flight}
    → ch.pending_cmds ≡ pos (chain_size ch.cmd_chain)
    → 0 < chain_size ch.cmd_chain
    → Run (dispatched ch) done lost f
    → Counted lost f × (done + open_commands lost f ≡ chain_size ch.cmd_chain)
unfolding dispatched
Run-Counted ch e some_left begins = (
  record {
    counts = e ∙ ap pos (omega arith);
    completes = nothing_due (open_commands 0 (dispatched ch)) (omega (arith, some_left));
  },
  omega arith,
)
Run-Counted ch e some_left (finishes {f = f} before after c r split) =
    let ih = Run-Counted ch e some_left r in
    (
      finish-Counted f before after c split (ih.0),
      omega (arith, ih.1, chain_size-finish f before after c split),
    )
Run-Counted ch e some_left (fails {lost = lost} {f = f} before after c r split) =
    let ih = Run-Counted ch e some_left r in
    (
      drop-Counted f before after c split (ih.0),
      omega (arith, ih.1, drop_open lost f before after c split),
    )

-- For every change whose counter is the number of commands of its trees, not 0, and at every
-- point of a run in which these commands finish and fail in any order: the commands finished,
-- those lost and those under way are together the commands of the change, the counter is the
-- number of those not finished, and `_on_complete` was called once if that number is 0, and
-- not at all otherwise. So it is never called twice, and never after a command is lost.
pub on_complete_once :
    (ch : Change) {done lost : ℕ} {f : Flight}
    → ch.pending_cmds ≡ pos (chain_size ch.cmd_chain)
    → 0 < chain_size ch.cmd_chain
    → Run (dispatched ch) done lost f
    → (done + (lost + chain_size f.commands) ≡ chain_size ch.cmd_chain)
      × (f.change.pending_cmds ≡ pos (lost + chain_size f.commands))
      × (f.completions ≡ calls_due (lost + chain_size f.commands))
on_complete_once ch e some_left r =
    let c = Run-Counted ch e some_left r in (c.1, c.0.counts, c.0.completes)
