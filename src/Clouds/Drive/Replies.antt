-- ===== src/Clouds/Drive/Replies.antt =====
-- What `GoogleDrive` makes of the replies to its requests: the `procces` functions and `proccessAuth`.
use sync_harbor.Base.{ℕ, ◌+◌, String, if◌then◌else◌}
use sync_harbor.Utils.Texts.{convert_cloud_time}
use sync_harbor.Utils.Dto.{
  HashSum, text, FileRecordDto, FileUpdatedDto, FileMovedDto, FileDeletedDto,
}
use sync_harbor.Database.Connection.{Result, ok}
use sync_harbor.Callbacks.CloudCommands.{CloudStorage}
use sync_harbor.Clouds.Json.{
  JsonValues, ◌then_read◌, parsed, get_text, get_number, has_member, index, first,
}

-- The tokens of a storage, which both drives keep in the same way.
pub record Tokens : Type 0 where
  pub access_token : String
  pub refresh_token : String
  pub access_token_expires : ℕ

module _ (json : JsonValues) where
  -- `j[key].get<std::string>()`
  unfoldable pub text_at : json.Json → String → Result String
  unfolding index get_text
  text_at j key = index json j key then_read get_text json

  -- `proccessAuth` of both drives, at the time `now`.
  unfoldable pub process_auth : ℕ → String → Tokens → Result Tokens
  unfolding parsed text_at has_member index get_number
  process_auth now response t = parsed json response then_read λ j.
      text_at j "access_token" then_read λ access_token.
      (if has_member json j "refresh_token" then text_at j "refresh_token" else ok t.refresh_token)
      then_read λ refresh_token.
          index json j "expires_in" then_read get_number json then_read λ expires_in. ok (record {
            access_token = access_token;
            refresh_token = refresh_token;
            access_token_expires = now + expires_in;
          })

module _ (json : JsonValues) (calendar : String → ℕ) (stoull : String → Result ℕ)
    (drive_id : ℕ) where
  -- The hash of a reply, empty where it has none.
  unfoldable pub reply_hash : json.Json → Result HashSum
  unfolding has_member text_at
  reply_hash j =
      (if has_member json j "md5Checksum" then text_at json j "md5Checksum" else ok "")
      then_read λ hash. ok (text hash)

  -- The size of a reply, or the one that was.
  unfoldable pub reply_size : json.Json → ℕ → Result ℕ
  unfolding has_member text_at
  reply_size j size =
      if has_member json j "size" then (text_at json j "size" then_read stoull) else ok size

  -- `j["parents"][0]`
  unfoldable pub reply_parent : json.Json → Result String
  unfolding index first get_text
  reply_parent j = index json j "parents" then_read first json then_read get_text json

  -- `proccesUpload`
  unfoldable pub process_upload : FileRecordDto → String → Result FileRecordDto
  unfolding parsed text_at reply_parent reply_size reply_hash convert_cloud_time
  process_upload dto response = parsed json response then_read λ j.
      text_at json j "modifiedTime" then_read λ modified. reply_parent j then_read λ parent.
      text_at json j "id" then_read λ id. reply_size j dto.size then_read λ size.
      reply_hash j then_read λ hash. ok (record dto {
        cloud_file_modified_time = convert_cloud_time calendar modified;
        cloud_id = drive_id;
        cloud_parent_id = parent;
        cloud_file_id = id;
        size = size;
        cloud_hash_check_sum = hash;
      })

  -- `proccesMove`
  unfoldable pub process_move : FileMovedDto → String → Result FileMovedDto
  unfolding parsed text_at reply_parent convert_cloud_time
  process_move dto response = parsed json response then_read λ j.
      text_at json j "modifiedTime" then_read λ modified. reply_parent j then_read λ parent.
      ok (record dto {
        cloud_file_modified_time = convert_cloud_time calendar modified;
        cloud_id = drive_id;
        new_cloud_parent_id = parent;
      })

  -- `proccesUpdate`
  unfoldable pub process_update : FileUpdatedDto → String → Result FileUpdatedDto
  unfolding parsed text_at reply_size reply_hash convert_cloud_time
  process_update dto response = parsed json response then_read λ j.
      text_at json j "modifiedTime" then_read λ modified. reply_hash j then_read λ hash.
      reply_size j dto.size then_read λ size. ok (record dto {
        cloud_file_modified_time = convert_cloud_time calendar modified;
        cloud_hash_check_sum = hash;
        size = size;
      })

  -- `proccesDelete`, which does nothing.
  unfoldable pub process_delete : FileDeletedDto → String → Result FileDeletedDto
  process_delete dto response = ok dto

  -- The storage as the commands use it.
  abbrev pub drive_storage : CloudStorage
  drive_storage = record {
    procces_upload = process_upload;
    procces_update = process_update;
    procces_move = process_move;
    procces_delete = process_delete;
  }
