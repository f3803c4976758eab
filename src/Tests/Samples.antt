-- ===== src/Tests/Samples.antt =====
-- Functions for what the crates `idna` and `url` offer, and a small engine.
use sentinel_osint.Common.{
  true, none, some, [], ◌∷◌, if◌then◌else◌, nat_eq, list_beq, list_beq_iff, drop,
}
use sentinel_osint.Common.Text.{Text, codes, starts_with}
use sentinel_osint.Net.{Ipv4Addr}
use sentinel_osint.Indicator.Defs.{Crates, DomainName, domain}
use sentinel_osint.Indicator.Policy.{Indicator, ipv4}
use sentinel_osint.Evidence.Entities.{Entity}
use sentinel_osint.Evidence.Observations.{Observation}
use sentinel_osint.Evidence.Relationships.{Relationship, resolves_to}
use sentinel_osint.Engine.Collectors.{Collector, target_and_pivots, ready}
use sentinel_osint.Engine.State.{Engine, TaskOutput, collected}

-- A URL is its text, with `https` and a host name; a name is its own ASCII form.
abbrev pub sample_crates : Crates
sample_crates = record {
  domain_to_ascii = λ s. some s;
  Url = Text;
  parse_url = λ s. if starts_with s (codes "https://") then some s else none;
  scheme = λ u. codes "https";
  username = λ u. [];
  password = λ u. none;
  host = λ u. some (domain (drop 8 u));
  port_or_known_default = λ u. some 443;
  url_beq = list_beq;
  url_beq_iff = list_beq_iff;
}

abbrev pub quad_eight : Ipv4Addr
quad_eight = record { a = 8; b = 8; c = 8; d = 8 }

abbrev pub example_name : DomainName
example_name = record { name = codes "a.dev" }

abbrev pub example_target : Indicator sample_crates
example_target = Indicator.domain example_name

abbrev pub dns_collector : Collector sample_crates
dns_collector = record {
  id = codes "dns";
  supports = λ i. true;
  scope = target_and_pivots;
  availability = ready;
}

abbrev pub sample_engine : Engine sample_crates
sample_engine = record {
  collectors = dns_collector ∷ [];
  clock = λ n. n;
  to_string = λ e. codes "failed";
  config = record {
    investigation_timeout = 60000;
    source_timeout = 45000;
    max_concurrent_sources = 4;
    max_requests = 1;
    pivots = record { max_depth = 1; max_entities = 1 };
  };
}

abbrev pub seen : Observation sample_crates
seen = record {
  id = 7;
  indicator = example_target;
  source = codes "dns";
  collected_at = 2;
  confidence = record { value = 90 };
}

abbrev pub address_of_name : Relationship sample_crates
address_of_name = record {
  source = Entity.indicator example_target;
  kind = resolves_to;
  target = Entity.indicator (ipv4 quad_eight);
  evidence = 7 ∷ [];
}

abbrev pub answer : TaskOutput sample_crates
answer = record {
  outcome = collected (record {
    observations = seen ∷ [];
    relationships = address_of_name ∷ [];
    findings = [];
    pivots = ipv4 quad_eight ∷ example_target ∷ [];
    failures = [];
  });
  started_at = 2;
  finished_at = 3;
}
