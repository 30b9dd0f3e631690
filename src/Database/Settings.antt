-- ===== src/Database/Settings.antt =====
-- The settings kept in `metadata` and `cloud_configs`.
use mathlib.Core.Option
use sync_harbor.Base.{
  ℕ, suc, String, ◌≡◌, ◌≢◌, refl, Bool, true, false, ◌&&◌, ◌||◌, inl, inr, Option, none, some, List,
  [], ◌∷◌, ◌++◌, find, any, amend, arith, ◌==◌, nat_eq, string_eq, if◌then◌else◌,
}
use sync_harbor.Base.Dict.{lookup, insert, lookup-insert}
use sync_harbor.Utils.Kinds.{CloudProviderType}
use sync_harbor.Database.Tables.{ConfigRow, Tables, IsIntact, fresh_tables, is_config, is_named}
use sync_harbor.Database.Rows.{find-append, find-none, any_above, find-amend_key}
use sync_harbor.Database.Connection.{
  Connection, Codes, Result, ok, err, Failure, prepare_failed, step_failed, not_found, parse_failed,
}
use sync_harbor.Database.Write.{
  put_metadata, add_local_dir, config_row, insert_config, add_cloud, set_config, update_config_rows,
  update_cloud_data, insert_file, insert_link, update_link_rows, update_file_rows, move_link_rows,
  move_file_rows, delete_rows,
}
use sync_harbor.Database.Read.{is_initial_sync_done, get_local_dir, JsonLibrary, get_cloud_config}
use sync_harbor.Database.Calls.{
  Call, adds_file, links_file, marks_sync_done, sets_local_dir, perform, run, idle, all_ok,
  transaction_succeeds,
}
use sync_harbor.Database.Atomicity.{effect, perform-IsAtomic}
use sync_harbor.Database.Files.{reads}

-- The two settings in `metadata`.
abbrev pub sync_done : Tables → Bool
sync_done t = elim (lookup "initial_sync_done" t.metadata) [ none ↦ false | some v ↦ v == "1" ]

keys_differ : ◌==◌ {A = String} "initial_sync_done" "local_dir" ≡ false
unfolding string_eq
keys_differ = refl

flag_is_set : ◌==◌ {A = String} "1" "1" ≡ true
unfolding string_eq
flag_is_set = refl

effect-sync_done :
    (call : Call) (t t' : Tables)
    → effect call t ≡ some t'
    → sync_done t' ≡ (elim call [ marks_sync_done ↦ true | _ ↦ sync_done t ])
unfolding effect insert_file insert_link update_link_rows update_file_rows move_link_rows
    move_file_rows delete_rows put_metadata update_config_rows insert_config
effect-sync_done (adds_file dto) t t' e = ground arith
effect-sync_done (links_file dto) t t' e = ground arith
effect-sync_done marks_sync_done t t' e =
    ground
      (arith, lookup-insert "initial_sync_done" "initial_sync_done" "1" t.metadata, flag_is_set)
effect-sync_done (sets_local_dir dir) t t' e =
    ground (arith, lookup-insert "initial_sync_done" "local_dir" dir t.metadata, keys_differ)
effect-sync_done call t t' e = ground arith

abbrev pub is_mark : Call → Bool
is_mark marks_sync_done = true
is_mark _ = false

abbrev pub succeeded : Option Failure → Bool
succeeded none = true
succeeded (some e) = false

-- Whether some call of a history is a `markInitialSyncDone` that did not throw.
abbrev pub marked : List (Codes × Call) → Connection → Bool
marked [] s = false
marked ((c, call) ∷ calls) s =
    let (e, s') = perform c call s in (is_mark call && succeeded e) || marked calls s'

effect-sync_done_or :
    (call : Call) (t t' : Tables)
    → effect call t ≡ some t'
    → sync_done t' ≡ (is_mark call || sync_done t)
effect-sync_done_or (adds_file dto) t t' e = effect-sync_done (adds_file dto) t t' e
effect-sync_done_or call t t' e = effect-sync_done call t t' e

run-sync_done :
    (calls : List (Codes × Call)) (t : Tables)
    → sync_done (run calls (idle t)).tables ≡ (marked calls (idle t) || sync_done t)
unfolding run
run-sync_done [] t = refl
run-sync_done ((c, call) ∷ calls) t = elim (perform-IsAtomic c call t) [
  | inl (t', e, h) ↦ rw h (ground (arith, run-sync_done calls t', effect-sync_done_or call t t' e))
  | inr (e, h) ↦ rw h (ground (arith, run-sync_done calls t))
]

-- From an empty database, and whatever codes SQLite returns to the calls of a history,
-- `isInitialSyncDone` afterwards holds exactly if some `markInitialSyncDone` of the history did not
-- throw, provided that its own query runs.
pub is_initial_sync_done-run :
    (calls : List (Codes × Call)) (c : Codes)
    → reads c ≡ true
    → is_initial_sync_done c (run calls (idle fresh_tables)) ≡ marked calls (idle fresh_tables)
unfolding is_initial_sync_done lookup
is_initial_sync_done-run calls c h = ground (arith, run-sync_done calls fresh_tables)

-- Where SQLite reports no error, `getLocalDir` returns the directory of the last `addLocalDir`, which
-- leaves the mark of the initial sync as it was.
pub get_local_dir-add_local_dir :
    (c c' : Codes) (dir : String) (t : Tables)
    → all_ok c ≡ true
    → reads c' ≡ true
    → let s = (add_local_dir c dir (idle t)).1 in
      ((get_local_dir c' s).0 ≡ ok dir)
      × (is_initial_sync_done c' s ≡ is_initial_sync_done c' (idle t))
unfolding add_local_dir get_local_dir is_initial_sync_done
get_local_dir-add_local_dir c c' dir t h r =
    rw
      (transaction_succeeds c (put_metadata "local_dir" dir) t
        (record t { metadata = insert "local_dir" dir t.metadata }) tt h refl)
      (
        ground (arith, lookup-insert "local_dir" "local_dir" dir t.metadata),
        ground (arith, lookup-insert "initial_sync_done" "local_dir" dir t.metadata, keys_differ),
      )

-- What the program relies on of the JSON library.
pub record RoundTrips (json : JsonLibrary) : Type 0 where
  pub parse-dump : (j : json.Json) → json.parse (json.dump j) ≡ some j

module _ (json : JsonLibrary) (law : RoundTrips json) where
  config_of : Option ConfigRow → Result json.Json
  config_of row = elim row [
    | none ↦ err not_found
    | some r ↦ elim (json.parse r.config_data) [ none ↦ err parse_failed | some j ↦ ok j ]
  ]

  get_cloud_config-reads :
      (c : Codes) (k : ℕ) (t : Tables)
      → reads c ≡ true
      → (get_cloud_config json c k (idle t)).0 ≡ config_of (find (is_config k) t.cloud_configs)
  unfolding get_cloud_config config_of
  get_cloud_config-reads c k t h = ground arith

  find-amend_config :
      (k g : ℕ) (f : ConfigRow → ConfigRow) (cs : List ConfigRow)
      → ((r : ConfigRow) → (f r).config_id ≡ r.config_id)
      → find (is_config k) (amend (is_config g) f cs)
        ≡ Option.map (λ r. if k == g then f r else r) (find (is_config k) cs)
  find-amend_config k g f cs h = find-amend_key (λ (r : ConfigRow). r.config_id) k g f cs h

  config_of-set :
      (j : json.Json) (b : Bool) (o : Option ConfigRow)
      → config_of (Option.map (λ r. if b then set_config (json.dump j) r else r) o)
        ≡ elim o [ none ↦ err not_found | some r ↦ if b then ok j else config_of (some r) ]
  unfolding config_of
  config_of-set j b none = refl
  config_of-set j true (some r) = rw (law.parse-dump j)
  config_of-set j false (some r) = refl

  find_config :
      (k cloud : ℕ) (cs : List ConfigRow)
      → any (is_config cloud) cs ≡ true
      → k ≡ cloud
      → find (is_config k) cs ≢ none
  unfolding find any
  find_config k cloud [] h e = ground arith
  find_config k cloud (r ∷ cs) h e = ground (arith, find_config k cloud cs)

  update_cloud_data_lem :
      (c : Codes) (cloud : ℕ) (dump : String) (t : Tables)
      → all_ok c ≡ true
      → update_cloud_data c cloud dump (idle t) ≡ (
        ok tt,
        idle (record t {
          cloud_configs = amend (is_config cloud) (set_config dump) t.cloud_configs;
        }),
      )
  unfolding update_cloud_data
  update_cloud_data_lem c cloud dump t h =
      transaction_succeeds c (update_config_rows cloud dump) t _ tt h refl

  -- Where SQLite reports no error and the cloud is there, `get_cloud_config` returns what
  -- `update_cloud_data` put in, and the data of every other cloud as before.
  pub get_cloud_config-update_cloud_data :
      (c c' : Codes) (cloud : ℕ) (j : json.Json) (t : Tables) (k : ℕ)
      → all_ok c ≡ true
      → reads c' ≡ true
      → any (is_config cloud) t.cloud_configs ≡ true
      → (get_cloud_config json c' k (update_cloud_data c cloud (json.dump j) (idle t)).1).0
        ≡ (if k == cloud then ok j else (get_cloud_config json c' k (idle t)).0)
  unfolding config_of
  get_cloud_config-update_cloud_data c c' cloud j t k h r there =
      rw (update_cloud_data_lem c cloud (json.dump j) t h, get_cloud_config-reads c' k _ r)
        (rw (find-amend_config k cloud (set_config (json.dump j)) t.cloud_configs (λ a. refl)) (
          rw (config_of-set j (k == cloud) (find (is_config k) t.cloud_configs)) (
            ground
              (arith, get_cloud_config-reads c' k t r, find_config k cloud t.cloud_configs there))))

  find-add_cloud :
      (name : String) (type : CloudProviderType) (dump : String) (t : Tables) (k : ℕ)
      → IsIntact t
      → find (is_config k) (t.cloud_configs ++ (config_row t.next_config_id name type dump ∷ []))
        ≡ (if k == t.next_config_id
            then some (config_row t.next_config_id name type dump)
            else find (is_config k) t.cloud_configs)
  unfolding find
  find-add_cloud name type dump t k v = ground (
    arith,
    find-append (is_config k) t.cloud_configs (config_row t.next_config_id name type dump ∷ []),
    find-none (is_config k) t.cloud_configs,
    any_above (λ (r : ConfigRow). r.config_id) 1 t.next_config_id k t.cloud_configs
        v.configs_ascend,
  )

  add_cloud_lem :
      (c : Codes) (name : String) (type : CloudProviderType) (dump : String) (t : Tables)
      → all_ok c ≡ true
      → any (is_named name) t.cloud_configs ≡ false
      → add_cloud c name type dump (idle t) ≡ (
        ok t.next_config_id,
        idle (record t {
          cloud_configs = t.cloud_configs ++ (config_row t.next_config_id name type dump ∷ []);
          next_config_id = suc t.next_config_id;
        }),
      )
  unfolding add_cloud insert_config
  add_cloud_lem c name type dump t h free = ground arith

  -- On intact tables and where SQLite reports no error, `add_cloud` of a free name returns the next
  -- key, under which `get_cloud_config` then finds the data given, with every other cloud as before.
  pub get_cloud_config-add_cloud :
      (c c' : Codes) (name : String) (type : CloudProviderType) (j : json.Json) (t : Tables) (k : ℕ)
      → all_ok c ≡ true
      → reads c' ≡ true
      → IsIntact t
      → any (is_named name) t.cloud_configs ≡ false
      → let (r, s) = add_cloud c name type (json.dump j) (idle t) in
        (r ≡ ok t.next_config_id)
        × ((get_cloud_config json c' k s).0
            ≡ (if k == t.next_config_id then ok j else (get_cloud_config json c' k (idle t)).0))
  unfolding config_of
  get_cloud_config-add_cloud c c' name type j t k h r v free =
      rw (add_cloud_lem c name type (json.dump j) t h free) (
        refl,
        rw (get_cloud_config-reads c' k _ r) (
            rw (find-add_cloud name type (json.dump j) t k v)
              (ground (arith, get_cloud_config-reads c' k t r, law.parse-dump j))),
      )

-- A cloud name is taken once: whatever codes SQLite returns, `add_cloud` of a name that is there
-- throws and changes nothing.
pub add_cloud_taken :
    (c : Codes) (name : String) (type : CloudProviderType) (dump : String) (s : Connection)
    → any (is_named name) s.tables.cloud_configs ≡ true
    → add_cloud c name type dump s ≡ (err (if c.prepares then step_failed else prepare_failed), s)
unfolding add_cloud insert_config
add_cloud_taken c name type dump s taken = ground arith
