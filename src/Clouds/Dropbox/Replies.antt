-- ===== src/Clouds/Dropbox/Replies.antt =====
-- What `Dropbox` makes of the replies to its requests: the `procces` functions.
use sync_harbor.Base.{
  ℕ, String, Bool, true, false, not, ◌&&◌, none, some, ◌==◌, string_eq, if◌then◌else◌,
}
use sync_harbor.Utils.Kinds.{EntryType, entry_type_eq}
use sync_harbor.Utils.Texts.{convert_cloud_time}
use sync_harbor.Utils.Dto.{text, FileRecordDto, FileUpdatedDto, FileMovedDto, FileDeletedDto}
use sync_harbor.Database.Connection.{Result, ok}
use sync_harbor.Callbacks.CloudCommands.{CloudStorage}
use sync_harbor.Clouds.Json.{
  JsonValues, ◌then_read◌, parsed, get_text, has_member, index, const_index, value_text,
  value_number,
}
use sync_harbor.Clouds.Drive.Replies.{text_at}

module _ (json : JsonValues) (calendar : String → ℕ) where
  -- `proccesUpload`
  unfoldable pub process_upload : FileRecordDto → String → Result FileRecordDto
  unfolding parsed index text_at convert_cloud_time
  process_upload dto response = parsed json response then_read λ j.
      if dto.type == EntryType.directory
      then (index json j "metadata" then_read λ meta.
          text_at json meta "id" then_read λ id. ok (record dto { cloud_file_id = id }))
      else (text_at json j "id" then_read λ id.
          text_at json j "server_modified" then_read λ modified.
          text_at json j "content_hash" then_read λ hash. ok (record dto {
            cloud_file_id = id;
            cloud_file_modified_time = convert_cloud_time calendar modified;
            cloud_hash_check_sum = text hash;
          }))

  -- The metadata of a reply, which may be the reply itself.
  unfoldable pub metadata_of : json.Json → Result json.Json
  unfolding has_member index
  metadata_of j = if has_member json j "metadata" then index json j "metadata" else ok j

  -- Whether the metadata is that of a file.
  unfoldable pub is_file_reply : EntryType → json.Json → Result Bool
  unfolding value_text
  is_file_reply type j =
      if type == EntryType.directory
      then ok false
      else (value_text json j ".tag" "" then_read λ tag. ok (tag == "file"))

  -- The content of an update that the reply describes.
  unfoldable pub file_reply : FileUpdatedDto → json.Json → Bool → Result FileUpdatedDto
  unfolding text_at value_text value_number convert_cloud_time
  file_reply dto j false = ok (record dto { cloud_hash_check_sum = text "" })
  file_reply dto j true = text_at json j "server_modified" then_read λ modified.
      value_text json j "content_hash" "" then_read λ hash.
      value_number json j "size" 0 then_read λ size. ok (record dto {
        cloud_file_modified_time = convert_cloud_time calendar modified;
        cloud_hash_check_sum = text hash;
        size = size;
      })

  -- `proccesUpdate`
  unfoldable pub process_update : FileUpdatedDto → String → Result FileUpdatedDto
  unfolding parsed metadata_of value_text is_file_reply file_reply
  process_update dto response = parsed json response then_read metadata_of then_read λ j.
      value_text json j "id" "" then_read λ id.
      is_file_reply dto.type j then_read file_reply (record dto { cloud_file_id = id }) j

  -- The test that a moved entry's metadata has a new time of a file.
  unfoldable pub says_file : json.Json → Bool
  unfolding has_member
  says_file meta =
      elim (json.member meta ".tag") [
        | some (some tag) ↦ elim (json.text tag) [ some t ↦ t == "file" | none ↦ false ]
        | _ ↦ false
      ]
      && has_member json meta "server_modified"

  -- `proccesMove`
  unfoldable pub process_move : FileMovedDto → String → Result FileMovedDto
  unfolding parsed has_member const_index index get_text says_file convert_cloud_time
  process_move dto response = parsed json response then_read λ j.
      if has_member json j "metadata"
      then (index json j "metadata" then_read λ meta.
          if not (dto.type == EntryType.directory) && says_file meta
          then (const_index json meta "server_modified"
              then_read get_text json
              then_read λ modified.
                  ok (record dto {
                    cloud_file_modified_time = convert_cloud_time calendar modified;
                  }))
          else ok dto)
      else ok dto

  -- `proccesDelete`, which does nothing.
  unfoldable pub process_delete : FileDeletedDto → String → Result FileDeletedDto
  process_delete dto response = ok dto

  -- The storage as the commands use it.
  abbrev pub dropbox_storage : CloudStorage
  dropbox_storage = record {
    procces_upload = process_upload;
    procces_update = process_update;
    procces_move = process_move;
    procces_delete = process_delete;
  }
