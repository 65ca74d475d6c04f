-- ===== src/Discovery/Tests.antt =====
-- A refresh on concrete input.
use aperture_router.Prelude.{ℕ, Option, none, some, List, [], ◌∷◌}
use aperture_router.Net.{Result, ok}
use aperture_router.Text.{Text, utf8}
use aperture_router.Upstream.Utf8.{StreamError}
use aperture_router.Upstream.Hosts.{Url}
use aperture_router.Discovery.{ApiModel, Answer, new}
use aperture_router.Discovery.Consistent.{IsConsistent, fetch_all, fetch_all-new-IsConsistent}

abbrev glm : ApiModel
glm = record {
  id = utf8 "glm";
  kind = none;
  created = none;
  owned_by = none;
  metadata = some (record { provider = some (record { id = some (utf8 "pool") }) });
}

-- An identifier with a space.
abbrev odd : ApiModel
odd = record glm { id = utf8 "g lm" }

abbrev from_slice : Text → Option (List ApiModel)
from_slice body = some (glm ∷ odd ∷ [])

abbrev base : Url
base = record { scheme = utf8 "http"; host_str = none; port = none }

abbrev parse_url : Text → Option Url
parse_url text = some base

abbrev join_url : Url → Text → Option Url
join_url url path = some url

abbrev respond : Url → ℕ → Result StreamError Answer
respond url attempt = ok (record { status = 200; content_length = none; chunks = [] })

fetch_all-new-IsConsistent_example :
    IsConsistent
      (fetch_all from_slice parse_url join_url (utf8 "http://gw") ((7, respond) ∷ []) new)
fetch_all-new-IsConsistent_example =
    fetch_all-new-IsConsistent from_slice parse_url join_url (utf8 "http://gw") ((7, respond) ∷ [])
