-- ===== src/Callbacks/Moves.antt =====
-- `LocalMoveCommand` gives the commands behind it both directories and the id of the file.
use sync_harbor.Base.{ℕ, String, ◌≡◌, refl, sym, ap, ◌∙◌, Option, none, some, arith}
use sync_harbor.Utils.FilePath.{parent_path}
use sync_harbor.Utils.Dto.{FileRecordDto, FileMovedDto}
use sync_harbor.Database.Connection.{Connection, Codes, Method, ok, return, ◌>>=◌}
use sync_harbor.Database.Read.{get_cloud_file_id_by_path, get_file_by_cloud_and_global_id}
use sync_harbor.Changes.Command.{moved_dto, cloud_move, Commands, accepts}
use sync_harbor.Callbacks.Passing.{for_move, with_old_link, pass_on}
use sync_harbor.Callbacks.Handed.{
  Reads, Reads-bind, Reads-return, Reads-query, path_query-kept, link_query-kept, AllHanded,
  AllOfKind, pass_on-AllHanded,
}

module _ (c : Codes) (s : Connection) where
  -- The file and its old directory are those of the link that the file has in the cloud.
  abbrev IsLinked : ℕ → ℕ → FileMovedDto → Type 0
  IsLinked g id a =
      (link : FileRecordDto) × ((get_file_by_cloud_and_global_id c id g s).0 ≡ ok (some link))
      × (a.cloud_file_id ≡ link.cloud_file_id)
      × (a.old_cloud_parent_id ≡ link.cloud_parent_id)

  -- It is for the cloud, and its new directory is the cloud's own one.
  abbrev pub IsForMove : FileMovedDto → ℕ → FileMovedDto → Type 0
  IsForMove dto id a =
      (a.cloud_id ≡ id)
      × IsLinked dto.global_id id a
      × ((get_cloud_file_id_by_path c c (parent_path dto.new_rel_path) id s).0
          ≡ ok a.new_cloud_parent_id)

  -- What a loop does not change of the move.
  abbrev SameMove : FileMovedDto → FileMovedDto → Type 0
  SameMove dto a = (a.global_id ≡ dto.global_id) × (a.new_rel_path ≡ dto.new_rel_path)

  with_old_link-Reads :
      (dto a : FileMovedDto) (id : ℕ) (link : Option FileRecordDto)
      → SameMove dto a
      → (get_file_by_cloud_and_global_id c id a.global_id s).0 ≡ ok link
      → Reads (λ b. IsLinked dto.global_id id b × SameMove dto b) s (with_old_link a link s)
  unfolding with_old_link
  with_old_link-Reads dto a id none fits e = record {
    kept = refl;
    returned = λ b h. absurd (ground arith);
  }
  with_old_link-Reads dto a id (some link) fits e = Reads-return _ s _ (
    (link, ap (λ g. (get_file_by_cloud_and_global_id c id g s).0) (sym fits.0) ∙ e, refl, refl),
    fits,
  )

  for_move-Reads :
      (dto a : FileMovedDto) (id : ℕ)
      → SameMove dto a
      → Reads (λ b. IsForMove dto id b × SameMove dto b) s (for_move c a id s)
  unfolding for_move
  for_move-Reads dto a id fits =
      let put : FileMovedDto → String → FileMovedDto =
        λ b parent. record b { new_cloud_parent_id = parent; cloud_id = id } in
      let parent_of : FileMovedDto → Method FileMovedDto = λ b.
        get_cloud_file_id_by_path c c (parent_path a.new_rel_path) id >>= λ parent.
        return (put b parent) in
      Reads-bind _ _ s (get_file_by_cloud_and_global_id c id a.global_id)
        (λ link. with_old_link a link >>= parent_of)
        (Reads-query (get_file_by_cloud_and_global_id c id a.global_id) s
          (link_query-kept c id a.global_id s))
        (λ link found.
          Reads-bind _ _ s (with_old_link a link) parent_of
            (with_old_link-Reads dto a id link fits found)
            (λ b linked.
              Reads-bind _ _ s (get_cloud_file_id_by_path c c (parent_path a.new_rel_path) id)
                (λ parent. return (put b parent))
                (Reads-query (get_cloud_file_id_by_path c c (parent_path a.new_rel_path) id) s
                  (path_query-kept c (parent_path a.new_rel_path) id s))
                (λ parent e. Reads-return _ s (put b parent) (
                  (
                    refl,
                    linked.0,
                    ap (λ p. (get_cloud_file_id_by_path c c (parent_path p) id s).0) (sym fits.1)
                        ∙ e,
                  ),
                  linked.1,
                ))))

  -- After `LocalMoveCommand` has noted its move, and where the commands behind it are all moves in the
  -- clouds: if the loop returns, it leaves the database alone, and every command behind has a DTO for its
  -- own cloud, with the file and the old directory of the file's link there and the cloud's id of the
  -- new directory.
  pub move_hands_on :
      (dto : FileMovedDto) (moves : Commands)
      → AllOfKind cloud_move moves
      → Reads
          (λ passed. AllHanded (IsForMove dto) moved_dto moves passed.1)
          s
          (pass_on (for_move c) moved_dto dto moves s)
  unfolding accepts
  move_hands_on dto moves k =
      pass_on-AllHanded (IsForMove dto) moved_dto cloud_move s (for_move c) (λ a. refl)
        (SameMove dto) (λ a id. for_move-Reads dto a id) dto moves (refl, refl) k
