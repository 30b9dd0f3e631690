-- ===== src/Utils/Names.antt =====
-- The stored names of the enumerations read back as the values they were written for.
use sync_harbor.Base.{◌≡◌, refl, some, string_eq}
use sync_harbor.Utils.Kinds.{
  CloudProviderType, EntryType, cloud_type_name, cloud_type_from_string, entry_type_name,
  entry_type_from_string,
}

-- Every cloud type is read back from the text that it is stored as.
pub cloud_type_from_string-cloud_type_name :
    (t : CloudProviderType) → cloud_type_from_string (cloud_type_name t) ≡ some t
unfolding cloud_type_from_string cloud_type_name string_eq
cloud_type_from_string-cloud_type_name CloudProviderType.local_storage = refl
cloud_type_from_string-cloud_type_name CloudProviderType.google_drive = refl
cloud_type_from_string-cloud_type_name CloudProviderType.dropbox = refl
cloud_type_from_string-cloud_type_name CloudProviderType.one_drive = refl
cloud_type_from_string-cloud_type_name CloudProviderType.yandex = refl
cloud_type_from_string-cloud_type_name CloudProviderType.mail_ru = refl
cloud_type_from_string-cloud_type_name CloudProviderType.fake_test = refl

-- Every entry type is read back from the text that it is stored as.
pub entry_type_from_string-entry_type_name :
    (t : EntryType) → entry_type_from_string (entry_type_name t) ≡ t
unfolding entry_type_from_string entry_type_name string_eq
entry_type_from_string-entry_type_name EntryType.file = refl
entry_type_from_string-entry_type_name EntryType.directory = refl
entry_type_from_string-entry_type_name EntryType.document = refl
entry_type_from_string-entry_type_name EntryType.null = refl
