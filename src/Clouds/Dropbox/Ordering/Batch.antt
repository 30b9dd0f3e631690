-- ===== src/Clouds/Dropbox/Ordering/Batch.antt =====
-- The order of the reports of one batch, as `proccessChanges` returns them.
use sync_harbor.Base.{
  ℕ, ◌≡◌, refl, inl, inr, String, Option, none, some, List, [], ◌∷◌, ◌++◌, map, All, string_eq,
}
use sync_harbor.Utils.Kinds.{change_type_eq}
use sync_harbor.Utils.FilePath.{path_eq}
use sync_harbor.Database.Connection.{Codes, Result, ok, err}
use sync_harbor.Local.Frame.{Ends, does_bind}
use sync_harbor.Clouds.Dropbox.Kept.{
  IsDeletion, IsOther, IsPending, Keeps-trans, Keeps, skips, IsOrdered, result-cases,
}
use sync_harbor.Clouds.Dropbox.Ordering.{process_entries-Keeps}
use sync_harbor.Clouds.Json.{JsonValues}
use sync_harbor.Clouds.Json.Gives.{Gives, given_ok}
use sync_harbor.Queue.{Queue, try_pop}
use sync_harbor.Clouds.Sweep.{Report, Sweep}
use sync_harbor.Clouds.Dropbox.Entry.{read_entry}
use sync_harbor.Clouds.Dropbox.Changes.{
  Deletions, Home, process_entries, read_page, take_batch, pending_reports, process_pages, Dropbox,
  swept, process_batch, process_changes,
}

-- Those that are no deletions, then those that are.
pub record HasDeletionsLast (reports : List Report) : Type 0 where
  pub firsts : List Report
  pub lasts : List Report
  pub split : reports ≡ firsts ++ lasts
  pub others_first : All IsOther firsts
  pub deletions_last : All IsDeletion lasts

pending_reports-IsDeletion :
    (pending : Deletions) → All IsPending pending → All IsDeletion (pending_reports pending)
unfolding pending_reports
pending_reports-IsDeletion [] h = tt
pending_reports-IsDeletion ((path, del) ∷ pending) h = (h.0, pending_reports-IsDeletion pending h.1)

module _ (json : JsonValues) (calendar : String → ℕ) (c : Codes) (clouds : List ℕ) where
  process_pages-Keeps :
      (home : Home) (pages : List String) (s : Sweep Deletions)
      → Ends Keeps s (process_pages json calendar c clouds home pages s)
  unfolding process_pages
  process_pages-Keeps home [] s = skips
  process_pages-Keeps home (raw ∷ pages) s =
      elim (result-cases (read_page json calendar c clouds raw)) [
        | inl (entries, r) ↦
            rw (r, process_pages)
              (does_bind Keeps-trans
                (process_entries c home clouds (map (read_entry json calendar) entries))
                (λ u. process_pages json calendar c clouds home pages) s
                (process_entries-Keeps c home clouds (map (read_entry json calendar) entries)
                  s).related
                (λ u. process_pages-Keeps home pages))
        | inr (f, r) ↦ rw (r, process_pages) (record { related = λ o. o })
      ]

  swept-Gives :
      (out : Result (Unit {0}) × Sweep Deletions)
      → IsOrdered out.1
      → Gives HasDeletionsLast (swept json calendar c clouds out).0
  unfolding swept
  swept-Gives (ok u, s) o = record {
    firsts = s.changes;
    lasts = pending_reports s.memory;
    split = refl;
    others_first = o.others;
    deletions_last = pending_reports-IsDeletion s.memory o.pending;
  }
  swept-Gives (err f, s) o = tt

  process_batch-Gives :
      (pages : List String) (d : Dropbox)
      → Gives HasDeletionsLast (process_batch json calendar c clouds pages d).0
  unfolding process_batch
  process_batch-Gives pages d =
      swept-Gives (process_pages json calendar c clouds d.home pages _)
        ((process_pages-Keeps d.home pages _).related (record { others = tt; pending = tt }))

  take_batch-Gives :
      (popped : Option (List String × Queue (List String))) (d : Dropbox)
      → Gives HasDeletionsLast (take_batch json calendar c clouds popped d).0
  unfolding take_batch
  take_batch-Gives none d = record {
    firsts = [];
    lasts = [];
    split = refl;
    others_first = tt;
    deletions_last = tt;
  }
  take_batch-Gives (some (pages, q)) d = process_batch-Gives pages (record d { events_buff = q })

  -- In the reports that one call of `proccessChanges` returns, all deletions stand behind all other
  -- changes, whatever the order of the entries.
  pub deletions_stand_last :
      (d : Dropbox) (reports : List Report)
      → (process_changes json calendar c clouds d).0 ≡ ok reports
      → HasDeletionsLast reports
  unfolding process_changes
  deletions_stand_last d reports =
      given_ok HasDeletionsLast _ reports (take_batch-Gives (try_pop d.events_buff) d)
