-- ===== src/Database/Integrity.antt =====
-- The schema's constraints hold after every history of calls, whatever codes SQLite returns.
use sync_harbor.Base.{
  ℕ, suc, String, ◌≡◌, refl, Bool, false, not, inl, inr, Bool-cases, ◌∙◌, List, [], ◌∷◌, ◌++◌, none,
  some, any, keep, amend, All-append, arith, nat_eq, string_eq,
}
use mathlib.Core.Path.{subst}
use mathlib.Core.Option.{some-injective}
use sync_harbor.Utils.Kinds.{CloudProviderType}
use sync_harbor.Utils.Dto.{FileRecordDto}
use sync_harbor.Database.Tables.{
  FileRow, ConfigRow, LinkRow, Tables, IsIntact, Refers, is_global, is_config, is_named, is_link,
  is_link_of, fresh_tables,
}
use sync_harbor.Database.Rows.{
  any-append_left, any-amend, Ascending-append, Ascending-keep, Ascending-amend,
}
use sync_harbor.Database.Constraints.{
  DistinctLinks-append, DistinctLinks-amend, DistinctLinks-keep, DistinctNames-append,
  DistinctNames-amend, Refers-mono, Refers-amend, Refers-delete,
}
use sync_harbor.Database.Connection.{Connection, Codes}
use sync_harbor.Database.Write.{
  config_row, link_row, insert_file, insert_link, update_link_rows, update_file_rows,
  move_link_rows, move_file_rows, delete_rows, put_metadata, update_config_rows, insert_config,
}
use sync_harbor.Database.Calls.{
  Call, adds_file, links_file, updates_link, updates_file, moves_link, moves_file, deletes_file,
  marks_sync_done, sets_local_dir, sets_cloud_data, adds_cloud, run, idle,
}
use sync_harbor.Database.Atomicity.{effect, perform-IsAtomic}

module _ (t : Tables) (v : IsIntact t) where
  insert_file-IsIntact :
      (row : FileRow)
      → row.global_id ≡ t.next_global_id
      → IsIntact (record t { files = t.files ++ (row ∷ []); next_global_id = suc t.next_global_id })
  insert_file-IsIntact row e = record {
    files_ascend = Ascending-append _ 1 t.next_global_id t.files row e v.files_ascend;
    configs_ascend = v.configs_ascend;
    names_distinct = v.names_distinct;
    links_distinct = v.links_distinct;
    links_refer =
        Refers-mono t.files _ t.cloud_configs _ (λ g. any-append_left (is_global g) t.files _)
          (λ c h. h) t.file_links v.links_refer;
  }

  insert_link-IsIntact :
      (row : LinkRow)
      → any (is_link row.global_id row.cloud_id) t.file_links ≡ false
      → Refers t.files t.cloud_configs row
      → IsIntact (record t { file_links = t.file_links ++ (row ∷ []) })
  insert_link-IsIntact row h r = record {
    files_ascend = v.files_ascend;
    configs_ascend = v.configs_ascend;
    names_distinct = v.names_distinct;
    links_distinct = DistinctLinks-append t.file_links row h v.links_distinct;
    links_refer = All-append _ t.file_links (row ∷ []) v.links_refer (r, tt);
  }

  amend_links-IsIntact :
      (q : LinkRow → Bool) (f : LinkRow → LinkRow)
      → ((l : LinkRow) → ((f l).global_id ≡ l.global_id) × ((f l).cloud_id ≡ l.cloud_id))
      → IsIntact (record t { file_links = amend q f t.file_links })
  amend_links-IsIntact q f h = record {
    files_ascend = v.files_ascend;
    configs_ascend = v.configs_ascend;
    names_distinct = v.names_distinct;
    links_distinct = DistinctLinks-amend q f t.file_links h v.links_distinct;
    links_refer = Refers-amend t.files t.cloud_configs q f h t.file_links v.links_refer;
  }

  amend_files-IsIntact :
      (q : FileRow → Bool) (f : FileRow → FileRow)
      → ((r : FileRow) → (f r).global_id ≡ r.global_id)
      → IsIntact (record t { files = amend q f t.files })
  amend_files-IsIntact q f h = record {
    files_ascend = Ascending-amend _ 1 t.next_global_id q f t.files h v.files_ascend;
    configs_ascend = v.configs_ascend;
    names_distinct = v.names_distinct;
    links_distinct = v.links_distinct;
    links_refer =
        Refers-mono t.files _ t.cloud_configs _
          (λ g e. any-amend (is_global g) q f t.files (λ r. ground (arith, h r)) ∙ e) (λ c e. e)
          t.file_links v.links_refer;
  }

  delete-IsIntact :
      (g : ℕ)
      → IsIntact (record t {
        files = keep (λ r. not (is_global g r)) t.files;
        file_links = keep (λ l. not (is_link_of g l)) t.file_links;
      })
  delete-IsIntact g = record {
    files_ascend = Ascending-keep _ 1 t.next_global_id _ t.files v.files_ascend;
    configs_ascend = v.configs_ascend;
    names_distinct = v.names_distinct;
    links_distinct = DistinctLinks-keep _ t.file_links v.links_distinct;
    links_refer = Refers-delete g t.files t.cloud_configs t.file_links v.links_refer;
  }

  amend_configs-IsIntact :
      (q : ConfigRow → Bool) (f : ConfigRow → ConfigRow)
      → ((c : ConfigRow) → ((f c).config_id ≡ c.config_id) × ((f c).name ≡ c.name))
      → IsIntact (record t { cloud_configs = amend q f t.cloud_configs })
  amend_configs-IsIntact q f h = record {
    files_ascend = v.files_ascend;
    configs_ascend =
        Ascending-amend _ 1 t.next_config_id q f t.cloud_configs (λ c. (h c).0) v.configs_ascend;
    names_distinct = DistinctNames-amend q f t.cloud_configs (λ c. (h c).1) v.names_distinct;
    links_distinct = v.links_distinct;
    links_refer =
        Refers-mono t.files _ t.cloud_configs _ (λ g e. e)
          (λ k e. any-amend (is_config k) q f t.cloud_configs (λ c. ground (arith, h c)) ∙ e)
          t.file_links v.links_refer;
  }

  insert_config-IsIntact :
      (row : ConfigRow)
      → row.config_id ≡ t.next_config_id
      → any (is_named row.name) t.cloud_configs ≡ false
      → IsIntact (record t {
        cloud_configs = t.cloud_configs ++ (row ∷ []);
        next_config_id = suc t.next_config_id;
      })
  insert_config-IsIntact row e h = record {
    files_ascend = v.files_ascend;
    configs_ascend = Ascending-append _ 1 t.next_config_id t.cloud_configs row e v.configs_ascend;
    names_distinct = DistinctNames-append t.cloud_configs row h v.names_distinct;
    links_distinct = v.links_distinct;
    links_refer =
        Refers-mono t.files _ t.cloud_configs _ (λ g k. k)
          (λ c. any-append_left (is_config c) t.cloud_configs _) t.file_links v.links_refer;
  }

insert_link-effect :
    (dto : FileRecordDto) (t t' : Tables)
    → effect (links_file dto) t ≡ some t'
    → IsIntact t
    → IsIntact t'
unfolding effect insert_link
insert_link-effect dto t t' e v =
    elim (Bool-cases (any (is_link dto.global_id dto.cloud_id) t.file_links)) [
      | inl taken ↦ subst IsIntact (ground arith) v
      | inr free ↦ elim (Bool-cases (any (is_global dto.global_id) t.files)) [
        | inr h ↦ ground arith
        | inl f ↦ elim (Bool-cases (any (is_config dto.cloud_id) t.cloud_configs)) [
          | inr h ↦ ground arith
          | inl c ↦
              subst IsIntact (ground arith) (insert_link-IsIntact t v (link_row dto) free (f, c))
        ]
      ]
    ]

insert_config-effect :
    (name : String) (type : CloudProviderType) (dump : String) (t t' : Tables)
    → effect (adds_cloud name type dump) t ≡ some t'
    → IsIntact t
    → IsIntact t'
unfolding effect insert_config
insert_config-effect name type dump t t' e v =
    elim (Bool-cases (any (is_named name) t.cloud_configs)) [
      | inl taken ↦ ground arith
      | inr free ↦
          subst IsIntact (ground arith)
            (insert_config-IsIntact t v (config_row t.next_config_id name type dump) refl free)
    ]

pub effect-IsIntact :
    (call : Call) (t t' : Tables) → effect call t ≡ some t' → IsIntact t → IsIntact t'
unfolding effect insert_file update_link_rows update_file_rows move_link_rows move_file_rows
    delete_rows put_metadata update_config_rows
effect-IsIntact (adds_file dto) t t' e v =
    subst IsIntact (some-injective _ _ e) (insert_file-IsIntact t v _ refl)
effect-IsIntact (links_file dto) t t' e v = insert_link-effect dto t t' e v
effect-IsIntact (updates_link dto) t t' e v =
    subst IsIntact (some-injective _ _ e) (amend_links-IsIntact t v _ _ (λ l. (refl, refl)))
effect-IsIntact (updates_file dto) t t' e v =
    subst IsIntact (some-injective _ _ e) (amend_files-IsIntact t v _ _ (λ r. refl))
effect-IsIntact (moves_link dto) t t' e v =
    subst IsIntact (some-injective _ _ e) (amend_links-IsIntact t v _ _ (λ l. (refl, refl)))
effect-IsIntact (moves_file dto) t t' e v =
    subst IsIntact (some-injective _ _ e) (amend_files-IsIntact t v _ _ (λ r. refl))
effect-IsIntact (deletes_file g) t t' e v =
    subst IsIntact (some-injective _ _ e) (delete-IsIntact t v g)
effect-IsIntact marks_sync_done t t' e v = subst IsIntact (some-injective _ _ e) (ground arith)
effect-IsIntact (sets_local_dir dir) t t' e v = subst IsIntact (some-injective _ _ e) (ground arith)
effect-IsIntact (sets_cloud_data cloud dump) t t' e v =
    subst IsIntact (some-injective _ _ e) (amend_configs-IsIntact t v _ _ (λ r. (refl, refl)))
effect-IsIntact (adds_cloud name type dump) t t' e v = insert_config-effect name type dump t t' e v

-- Between calls no transaction is open and the schema's constraints hold.
pub record IsSound (s : Connection) : Type 0 where
  pub closed : s.saved ≡ none
  pub intact : IsIntact s.tables

pub run_from-IsSound :
    (calls : List (Codes × Call)) (t : Tables) → IsIntact t → IsSound (run calls (idle t))
unfolding run
run_from-IsSound [] t v = record { closed = refl; intact = v }
run_from-IsSound ((c, call) ∷ calls) t v = elim (perform-IsAtomic c call t) [
  | inl (t', e, h) ↦ rw h (run_from-IsSound calls t' (effect-IsIntact call t t' e v))
  | inr (e, h) ↦ rw h (run_from-IsSound calls t v)
]

pub fresh_tables-IsIntact : IsIntact fresh_tables
fresh_tables-IsIntact = record {
  files_ascend = omega arith;
  configs_ascend = omega arith;
  names_distinct = tt;
  links_distinct = tt;
  links_refer = tt;
}

-- From an empty database every history of calls, with whatever codes SQLite returns, ends with no
-- open transaction, ascending keys below their counters, unique cloud names and link keys, and
-- links that refer to files and clouds that are there.
pub run-IsSound : (calls : List (Codes × Call)) → IsSound (run calls (idle fresh_tables))
run-IsSound calls = run_from-IsSound calls fresh_tables fresh_tables-IsIntact
