-- ===== src/Utils/Kinds.antt =====
-- The enumerations of include/utils.h with the texts that src/utils.cpp stores for them.
use sync_harbor.Base.{String, Option, none, some, Eq, ◌==◌, string_eq, if◌then◌else◌}

pub data CloudProviderType : Type 0 where
  local_storage google_drive dropbox one_drive yandex mail_ru fake_test : CloudProviderType

pub data EntryType : Type 0 where
  file directory document null : EntryType

pub data ChangeType : Type 0 where
  null created updated moved renamed deleted : ChangeType

CloudProviderType-discrete : Discrete CloudProviderType
CloudProviderType-discrete = hlevel

EntryType-discrete : Discrete EntryType
EntryType-discrete = hlevel

ChangeType-discrete : Discrete ChangeType
ChangeType-discrete = hlevel

instance unfoldable pub cloud_provider_type_eq : Eq CloudProviderType
unfolding CloudProviderType-discrete
cloud_provider_type_eq = record { dec = CloudProviderType-discrete }

instance unfoldable pub entry_type_eq : Eq EntryType
unfolding EntryType-discrete
entry_type_eq = record { dec = EntryType-discrete }

instance unfoldable pub change_type_eq : Eq ChangeType
unfolding ChangeType-discrete
change_type_eq = record { dec = ChangeType-discrete }

-- `to_cstr(CloudProviderType)`
unfoldable pub cloud_type_name : CloudProviderType → String
cloud_type_name local_storage = "LocalStorage"
cloud_type_name google_drive = "GoogleDrive"
cloud_type_name dropbox = "Dropbox"
cloud_type_name one_drive = "OneDrive"
cloud_type_name yandex = "Yandex"
cloud_type_name mail_ru = "MailRu"
cloud_type_name fake_test = "FakeTest"

-- `map.at` throws `std::out_of_range` on a text that is no key: `none`.
unfoldable pub cloud_type_from_string : String → Option CloudProviderType
cloud_type_from_string s =
    if s == "LocalStorage"
    then some local_storage
    else if s == "GoogleDrive"
    then some google_drive
    else if s == "Dropbox"
    then some dropbox
    else if s == "OneDrive"
    then some one_drive
    else if s == "Yandex"
    then some yandex
    else if s == "MailRu"
    then some mail_ru
    else if s == "FakeTest"
    then some fake_test
    else none

-- `to_cstr(EntryType)`
unfoldable pub entry_type_name : EntryType → String
entry_type_name file = "File"
entry_type_name directory = "Directory"
entry_type_name document = "Document"
entry_type_name null = "Null"

-- A text that is no key reads as `Null`.
unfoldable pub entry_type_from_string : String → EntryType
entry_type_from_string s =
    if s == "File"
    then file
    else if s == "Directory"
    then directory
    else if s == "Document"
    then document
    else if s == "Null"
    then null
    else null

-- `to_string(ChangeType)`
unfoldable pub change_type_name : ChangeType → String
change_type_name created = "New"
change_type_name renamed = "Rename"
change_type_name updated = "Update"
change_type_name moved = "Move"
change_type_name deleted = "Delete"
change_type_name null = "Null"
