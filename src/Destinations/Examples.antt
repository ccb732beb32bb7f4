-- ===== src/Destinations/Examples.antt =====
-- The checks at a toy address space in which "10" is private and all else is global.
use unifi_mcp.Base.{
  String, ◌≢◌, false, not, Option, none, some, List, [], ◌∷◌, str_eq, if◌then◌else◌, err, All,
}
use unifi_mcp.Destinations.{
  SplitResult, IpAddress, ValidatedWebhookDestination, http_error, assertion_error, post_validated,
}
use unifi_mcp.Destinations.Ssrf.{Global, post_validated-Global}

abbrev toy : IpAddress
toy = record {
  Address = String;
  ip_address = λ s. if str_eq s "hooks.example" then none else some s;
  show = λ a. a;
  is_global = λ a. not (str_eq a "10");
}

abbrev resolver : String → Option (List String)
resolver name = some ("8" ∷ "1" ∷ "8" ∷ [])

abbrev url : SplitResult
url = record {
  scheme = "https";
  username = none;
  password = none;
  fragment = "";
  hostname = some "hooks.example";
  port = none;
  port_invalid = false;
  netloc = "hooks.example";
}

abbrev checked : ValidatedWebhookDestination
checked = record { parsed = url; addresses = "1" ∷ "8" ∷ [] }

post_validated-Global_example :
    All (λ u. Global toy u.address) (post_validated toy false resolver (λ u. http_error) url).1
    × ((post_validated toy false resolver (λ u. http_error) url).0 ≢ err assertion_error)
post_validated-Global_example = post_validated-Global toy resolver (λ u. http_error) url
