-- ===== src/Net/Description.antt =====
-- crates/core/src/net.rs: what an address scope is called.
use sentinel_osint.Common.Text.{Text, codes}
use sentinel_osint.Net
use sentinel_osint.Net.{AddressScope}

-- `AddressScope::description`, which `Display` writes.
abbrev pub description : AddressScope → Text
description Net.global = codes "globally routable"
description Net.unspecified = codes "unspecified"
description Net.loopback = codes "loopback"
description Net.private = codes "private (RFC 1918)"
description Net.shared_address_space = codes "shared address space (carrier-grade NAT)"
description Net.link_local = codes "link-local"
description Net.unique_local = codes "unique local (IPv6)"
description Net.documentation = codes "documentation"
description Net.benchmarking = codes "benchmarking"
description Net.multicast = codes "multicast"
description Net.broadcast = codes "broadcast"
description Net.reserved = codes "reserved"
