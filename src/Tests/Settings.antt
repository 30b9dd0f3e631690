-- ===== src/Tests/Settings.antt =====
-- The settings and the clouds.
use sync_harbor.Base.{refl, nat_eq, string_eq, arith}
use sync_harbor.Database.Tables.{IsIntact, fresh_tables}
use sync_harbor.Database.Settings.{RoundTrips}
use sync_harbor.Tests.Data.{plain_json}

plain_json-RoundTrips : RoundTrips plain_json
plain_json-RoundTrips = record { parse-dump = λ j. refl }

fresh_tables-IsIntact : IsIntact fresh_tables
fresh_tables-IsIntact = record {
  files_ascend = omega arith;
  configs_ascend = omega arith;
  names_distinct = tt;
  links_distinct = tt;
  links_refer = tt;
}
