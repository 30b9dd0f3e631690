-- ===== src/Clouds/Json/Lookups.antt =====
-- Readings of a member that is there or missing.
use sync_harbor.Base.{◌≡◌, refl, false, String, none, some}
use sync_harbor.Database.Connection.{ok, err, parse_failed}
use sync_harbor.Clouds.Json.{JsonValues, parsed, index, value_by, value_text}

module _ (json : JsonValues) where
  pub value_text-missing :
      (page : json.Json) (key missing : String)
      → json.member page key ≡ some none
      → value_text json page key missing ≡ ok missing
  unfolding value_text value_by
  value_text-missing page key missing h = rw (h, value_text, value_by) refl

  pub index-missing :
      (page : json.Json) (key : String)
      → json.is_null page ≡ false
      → json.member page key ≡ some none
      → index json page key ≡ ok json.null
  unfolding index
  index-missing page key n h = rw (n, h) refl

  pub parsed-some :
      (reply : String) (page : json.Json)
      → json.parse reply ≡ some page
      → parsed json reply ≡ ok page
  unfolding parsed
  parsed-some reply page h = rw (h, parsed) refl

  pub parsed-none :
      (reply : String) → json.parse reply ≡ none → parsed json reply ≡ err parse_failed
  unfolding parsed
  parsed-none reply h = rw (h, parsed) refl
