-- ===== src/Manager/PushLocal/Targets.antt =====
-- The clouds that a file goes to.
use sync_harbor.Base.{
  ℕ, ◌≡◌, refl, Bool, false, not, Option, none, some, List, [], ◌∷◌, ◌++◌, map, keep, arith, ◌==◌,
  nat_eq, if◌then◌else◌, String,
}
use sync_harbor.Utils.FilePath.{FilePath}
use sync_harbor.Utils.Dto.{FileRecordDto}
use sync_harbor.Database.Connection.{Codes, Connection, Result, ok, err, Method, return, ◌>>=◌}
use sync_harbor.Changes.Command.{Command, get_id}
use sync_harbor.Manager.InitialSync.{text_of}
use sync_harbor.Manager.PushLocal.{
  last_of, push_over, push_known, push_with, with_command, push_to_clouds,
}

-- The cloud has the best file already.
abbrev pub has_best : FileRecordDto → List FileRecordDto → ℕ → Bool
has_best here range cloud_id = elim (last_of cloud_id range) [
  | none ↦ false
  | some there ↦ cloud_id == here.cloud_id
]

then_parts :
    {A B : Type 0} (r : Result A × Connection) (k : A → Method B) (b : B)
    → (elim r.0 as (λ _. Result B × Connection) [ ok a ↦ k a r.1 | err e ↦ (err e, r.1) ]).0 ≡ ok b
    → (a : A) × (r.0 ≡ ok a) × ((k a r.1).0 ≡ ok b)
then_parts (ok a, s) k b h = (a, refl, h)
then_parts (err e, s) k b h = absurd (ground arith)

-- What returns has returned at every step.
then_ok :
    {A B : Type 0} (m : Method A) (k : A → Method B) (s : Connection) (b : B)
    → ((m >>= k) s).0 ≡ ok b
    → (a : A) × ((m s).0 ≡ ok a) × ((k a (m s).1).0 ≡ ok b)
then_ok m k s b h = then_parts (m s) k b h

module _ (c : Codes) (rel_path : FilePath) (here : FileRecordDto) where
  -- The cloud of the command, if there is one.
  abbrev Sends : ℕ → Bool → Option Command → Type 0
  Sends cloud_id best cmd =
      map get_id (with_command c rel_path here cmd []) ≡ (if best then [] else cloud_id ∷ [])

  push_over-Sends :
      (cloud_id : ℕ) (there : FileRecordDto) (hash : Option String) (s : Connection)
      (cmd : Option Command)
      → (push_over c rel_path here cloud_id there hash s).0 ≡ ok cmd
      → Sends cloud_id false cmd
  unfolding push_over with_command get_id
  push_over-Sends cloud_id there none s cmd h = absurd (ground arith)
  push_over-Sends cloud_id there (some hash) s cmd h = ground (arith, h)

  push_with-Sends :
      (cloud_id : ℕ) (found : Option FileRecordDto) (s : Connection) (cmd : Option Command)
      → (push_with c rel_path here cloud_id found s).0 ≡ ok cmd
      → Sends cloud_id (elim found [ none ↦ false | some there ↦ cloud_id == here.cloud_id ]) cmd
  unfolding push_with push_known with_command get_id
  push_with-Sends cloud_id none s cmd h = ground (arith, h)
  push_with-Sends cloud_id (some there) s cmd h =
      ground (arith, h, push_over-Sends cloud_id there (text_of there.cloud_hash_check_sum) s cmd)

  map-with_command :
      (cmd : Option Command) (cmds : List Command)
      → map get_id (with_command c rel_path here cmd cmds)
        ≡ map get_id (with_command c rel_path here cmd []) ++ map get_id cmds
  unfolding with_command
  map-with_command none cmds = refl
  map-with_command (some cmd) cmds = refl

  -- If the loop returns, its commands are one for each of the clouds, in their order, except for those
  -- that have the file already and gave it to this place.
  pub push_to_clouds-targets :
      (range : List FileRecordDto) (clouds : List ℕ) (s : Connection) (cmds : List Command)
      → (push_to_clouds c rel_path here range clouds s).0 ≡ ok cmds
      → map get_id cmds ≡ keep (λ id. not (has_best here range id)) clouds
  unfolding push_to_clouds keep
  push_to_clouds-targets range [] s cmds h = ground (arith, h)
  push_to_clouds-targets range (cloud_id ∷ clouds) s cmds h =
      let first = push_with c rel_path here cloud_id (last_of cloud_id range) in
      let (cmd, e, rest) =
        then_ok first
          (λ cmd. push_to_clouds c rel_path here range clouds >>= λ cmds.
            return (with_command c rel_path here cmd cmds))
          s cmds h in
      let (others, f, all) =
        then_ok (push_to_clouds c rel_path here range clouds)
          (λ cmds. return (with_command c rel_path here cmd cmds)) (first s).1 cmds rest in
      ground (
        arith,
        all,
        map-with_command cmd others,
        push_with-Sends cloud_id (last_of cloud_id range) s cmd e,
        push_to_clouds-targets range clouds (first s).1 others f,
      )
