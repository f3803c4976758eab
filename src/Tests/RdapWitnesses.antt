-- ===== src/Tests/RdapWitnesses.antt =====
-- The theorem on the bootstrap registry at a document with one service.
use sentinel_osint.Common.{false, Option, none, some, List, [], ◌∷◌, ok, ◌≡◌, refl}
use sentinel_osint.Common.Text.{Text, codes}
use sentinel_osint.Net.{v4}
use sentinel_osint.Net.Prefix.{mask}
use sentinel_osint.Rdap.{Web, Bootstrap, parse, service_for}
use sentinel_osint.Rdap.Laws.{Served, service_for-parse}
use sentinel_osint.Tests.Samples.{sample_crates, quad_eight}

-- The values of a document with the services [["8.0.0.0/8"], ["https://a.dev"]].
data Node : Type 0 where
  document services service prefixes urls prefix url : Node

abbrev array_of : Node → Option (List Node)
array_of services = some (service ∷ [])
array_of service = some (prefixes ∷ urls ∷ [])
array_of prefixes = some (prefix ∷ [])
array_of urls = some (url ∷ [])
array_of _ = none

abbrev text_of : Node → Option Text
text_of prefix = some (codes "8.0.0.0/8")
text_of url = some (codes "https://a.dev")
text_of _ = none

abbrev sample_web : Web sample_crates
sample_web = record {
  Value = Node;
  from_slice = λ body. some document;
  get = λ name value. some services;
  as_array = array_of;
  as_str = text_of;
  query = λ u. none;
  fragment = λ u. none;
}

abbrev registry : Bootstrap sample_crates sample_web
registry = record {
  entries =
      (
        record { network = v4 (record { a = 8; b = 0; c = 0; d = 0 }); len = 8 },
        codes "https://a.dev" ∷ [],
      )
      ∷ [];
}

registry_parsed : parse sample_crates sample_web (1 ∷ []) false ≡ ok registry
unfolding parse mask
registry_parsed = refl

registry_served :
    service_for sample_crates sample_web registry (v4 quad_eight) ≡ some (codes "https://a.dev")
unfolding service_for mask
registry_served = refl

service_for-parse_example : Served sample_crates sample_web false registry (v4 quad_eight)
service_for-parse_example =
    service_for-parse sample_crates sample_web false registry (v4 quad_eight) (1 ∷ [])
      registry_parsed
