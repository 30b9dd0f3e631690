-- ===== src/Database/Catalogue.antt =====
-- What Database promises of files: a catalogue of records by key, which the calls that return change in
-- their order. It forgets the rows, the transactions and the codes of SQLite.
use mathlib.Core.Option
use mathlib.Core.Option.{some-injective}
use mathlib.Core.Path.{subst}
use sync_harbor.Base.{
  ℕ, suc, String, ◌≡◌, refl, ap, ◌∙◌, true, inl, inr, Option, none, some, List, [], ◌∷◌, find,
  arith, ◌==◌, nat_eq, if◌then◌else◌,
}
use sync_harbor.Utils.Dto.{FileRecordDto}
use sync_harbor.Utils.Kinds.{CloudProviderType}
use sync_harbor.Database.Tables.{Tables, IsIntact, is_global, fresh_tables}
use sync_harbor.Database.Connection.{Connection, Codes, ok}
use sync_harbor.Database.Read.{stored_file, get_file_by_global_id}
use sync_harbor.Database.Write.{
  insert_file, insert_link, update_link_rows, update_file_rows, refile, move_link_rows,
  move_file_rows, move_file, delete_rows, put_metadata, update_config_rows, insert_config,
}
use sync_harbor.Database.Calls.{
  Call, adds_file, links_file, updates_link, updates_file, moves_link, moves_file, deletes_file,
  marks_sync_done, sets_local_dir, sets_cloud_data, adds_cloud, perform, run, idle,
}
use sync_harbor.Database.Atomicity.{effect, perform-IsAtomic}
use sync_harbor.Database.Integrity.{effect-IsIntact, fresh_tables-IsIntact}
use sync_harbor.Database.Files.{
  reads, recorded, with_update, with_move, get_file_by_global_id-reads, find-add_file,
  find-amend_file, map-change, find-delete,
}

-- The key of the next file, and the files by their keys.
pub record Catalogue : Type 0 where
  pub next : ℕ
  pub file : ℕ → Option FileRecordDto

abbrev pub empty_catalogue : Catalogue
empty_catalogue = record { next = 1; file = λ k. none }

-- What a call that returns does to it.
unfoldable pub specified : Call → Catalogue → Catalogue
specified (adds_file dto) a = record {
  next = suc a.next;
  file = λ k. if k == a.next then some (recorded a.next dto) else a.file k;
}
specified (updates_file dto) a = record a {
  file = λ k. Option.map (λ r. if k == dto.global_id then with_update dto r else r) (a.file k);
}
specified (moves_file dto) a = record a {
  file = λ k. Option.map (λ r. if k == dto.global_id then with_move dto r else r) (a.file k);
}
specified (deletes_file g) a = record a { file = λ k. if k == g then none else a.file k }
specified _ a = a

-- The catalogue after a history: what throws does nothing.
unfoldable pub catalogue : List (Codes × Call) → Connection → Catalogue → Catalogue
unfolding specified perform
catalogue [] s a = a
catalogue ((c, call) ∷ calls) s a =
    let (thrown, s') = perform c call s in
    catalogue calls s' (elim thrown [ none ↦ specified call a | some e ↦ a ])

-- The tables hold the catalogue.
record Holds (t : Tables) (a : Catalogue) : Type 0 where
  same_next : t.next_global_id ≡ a.next
  same_file : (k : ℕ) → Option.map stored_file (find (is_global k) t.files) ≡ a.file k

Holds-same :
    (t t' : Tables) (a : Catalogue)
    → t'.files ≡ t.files
    → t'.next_global_id ≡ t.next_global_id
    → Holds t a
    → Holds t' a
Holds-same t t' a f n h = record {
  same_next = n ∙ h.same_next;
  same_file = λ k. ap (λ fs. Option.map stored_file (find (is_global k) fs)) f ∙ h.same_file k;
}

insert_link-same :
    (dto : FileRecordDto) (t t' : Tables)
    → effect (links_file dto) t ≡ some t'
    → (t'.files ≡ t.files) × (t'.next_global_id ≡ t.next_global_id)
unfolding effect insert_link
insert_link-same dto t t' e = ground arith

insert_config-same :
    (name : String) (type : CloudProviderType) (dump : String) (t t' : Tables)
    → effect (adds_cloud name type dump) t ≡ some t'
    → (t'.files ≡ t.files) × (t'.next_global_id ≡ t.next_global_id)
unfolding effect insert_config
insert_config-same name type dump t t' e = ground arith

effect-Holds :
    (call : Call) (t t' : Tables) (a : Catalogue)
    → effect call t ≡ some t'
    → IsIntact t
    → Holds t a
    → Holds t' (specified call a)
unfolding effect specified insert_file update_link_rows update_file_rows move_link_rows
    move_file_rows delete_rows put_metadata update_config_rows stored_file
effect-Holds (adds_file dto) t t' a e v h =
    subst (λ u. Holds u (specified (adds_file dto) a)) (some-injective _ _ e)
      (record {
        same_next = ap suc h.same_next;
        same_file = λ k. ground (arith, find-add_file dto t k v, h.same_next, h.same_file k);
      })
effect-Holds (updates_file dto) t t' a e v h =
    subst (λ u. Holds u (specified (updates_file dto) a)) (some-injective _ _ e)
      (record {
        same_next = h.same_next;
        same_file = λ k.
            ap (Option.map stored_file)
              (find-amend_file k dto.global_id (refile dto) t.files (λ r. refl))
            ∙ map-change (refile dto) (with_update dto) (λ r. refl) (k == dto.global_id)
                (find (is_global k) t.files)
            ∙ ap (Option.map (λ r. if k == dto.global_id then with_update dto r else r))
                (h.same_file k);
      })
effect-Holds (moves_file dto) t t' a e v h =
    subst (λ u. Holds u (specified (moves_file dto) a)) (some-injective _ _ e)
      (record {
        same_next = h.same_next;
        same_file = λ k.
            ap (Option.map stored_file)
              (find-amend_file k dto.global_id (move_file dto) t.files (λ r. refl))
            ∙ map-change (move_file dto) (with_move dto) (λ r. refl) (k == dto.global_id)
                (find (is_global k) t.files)
            ∙ ap (Option.map (λ r. if k == dto.global_id then with_move dto r else r))
                (h.same_file k);
      })
effect-Holds (deletes_file g) t t' a e v h =
    subst (λ u. Holds u (specified (deletes_file g) a)) (some-injective _ _ e)
      (record {
        same_next = h.same_next;
        same_file = λ k. ground (arith, find-delete g k t.files, h.same_file k);
      })
effect-Holds (links_file dto) t t' a e v h =
    let (f, n) = insert_link-same dto t t' e in Holds-same t t' a f n h
effect-Holds (adds_cloud name type dump) t t' a e v h =
    let (f, n) = insert_config-same name type dump t t' e in Holds-same t t' a f n h
effect-Holds (updates_link dto) t t' a e v h =
    Holds-same t t' a (ground (arith, e)) (ground (arith, e)) h
effect-Holds (moves_link dto) t t' a e v h =
    Holds-same t t' a (ground (arith, e)) (ground (arith, e)) h
effect-Holds marks_sync_done t t' a e v h =
    Holds-same t t' a (ground (arith, e)) (ground (arith, e)) h
effect-Holds (sets_local_dir dir) t t' a e v h =
    Holds-same t t' a (ground (arith, e)) (ground (arith, e)) h
effect-Holds (sets_cloud_data cloud dump) t t' a e v h =
    Holds-same t t' a (ground (arith, e)) (ground (arith, e)) h

run-Holds :
    (calls : List (Codes × Call)) (t : Tables) (a : Catalogue)
    → IsIntact t
    → Holds t a
    → (t' : Tables) × (run calls (idle t) ≡ idle t') × Holds t' (catalogue calls (idle t) a)
unfolding run catalogue
run-Holds [] t a v h = (t, refl, h)
run-Holds ((c, call) ∷ calls) t a v h = elim (perform-IsAtomic c call t) [
  | inl (t', e, p) ↦ rw p (
      run-Holds calls t' (specified call a) (effect-IsIntact call t t' e v)
        (effect-Holds call t t' a e v h))
  | inr (e, p) ↦ rw p (run-Holds calls t a v h)
]

-- From an empty database, and whatever codes SQLite returns to the calls: after every history
-- `getFileByGlobalId`, if its query runs, finds under each key what the catalogue has there, in which
-- exactly the calls that did not throw have had their effect, in their order.
pub get_file_by_global_id-run :
    (calls : List (Codes × Call)) (c : Codes) (k : ℕ)
    → reads c ≡ true
    → (get_file_by_global_id c k (run calls (idle fresh_tables))).0
      ≡ ok ((catalogue calls (idle fresh_tables) empty_catalogue).file k)
unfolding find
get_file_by_global_id-run calls c k h =
    let (t, e, holds) =
      run-Holds calls fresh_tables empty_catalogue fresh_tables-IsIntact
        (record { same_next = refl; same_file = λ k. refl }) in
    rw (e, get_file_by_global_id-reads c k t h) (ap ok (holds.same_file k))
