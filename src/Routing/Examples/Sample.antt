-- ===== src/Routing/Examples/Sample.antt =====
-- Configurations, a main table and packets as a VPN client would have them.
use sysnet_linux.Base.{ℕ, ◌+◌, ◌*◌, ◌^◌, pos, ◌≡◌, refl, none, [], ◌∷◌, ◌+ℤ◌}
use sysnet_linux.Net.Addr
use sysnet_linux.Net.Prefix.{prefix_from, prefix_eq, masked}
use sysnet_linux.Routing.Unix.{af_inet, rt_table_main}
use sysnet_linux.Routing.Model.{Route, Snapshot, SourceRoute, route_type_unicast}
use sysnet_linux.Routing.Config.{
  Config, default_config, validate, validate_source_routes, valid_preferred_source, family_enabled,
  effective_tunnel_families, reserved_route_table, marks_overlap, mode_include, mode_exclude,
  non_strict, strict,
}
use sysnet_linux.Routing.Config.Valid.{IsValidConfig, validate_iff}
use sysnet_linux.Routing.Policy.{Packet}

-- The address 10.a.b.c.
abbrev pub private_addr : ℕ → ℕ → ℕ → Addr.Addr
private_addr a b c = Addr.v4 (10 * 2 ^ 24 + a * 2 ^ 16 + b * 2 ^ 8 + c)

abbrev pub office : SourceRoute
office = record { destination = prefix_from (private_addr 8 0 0) 16; source = private_addr 8 0 2 }

abbrev pub sample : Config
sample = record default_config {
  tun_index = pos 7;
  source_routes = office ∷ [];
  user_mark = 2;
  mode = mode_include;
  strictness = non_strict;
}

abbrev pub strict_sample : Config
strict_sample = record sample { mode = mode_exclude; strictness = strict }

pub sample_validates : validate sample ≡ none
unfolding validate validate_source_routes reserved_route_table ◌+ℤ◌ marks_overlap Addr.is4in6
    prefix_eq masked valid_preferred_source Addr.is_unspecified Addr.is_multicast Addr.is_loopback
    Addr.is_global_unicast family_enabled effective_tunnel_families
sample_validates = refl

pub sample-IsValid : IsValidConfig sample
sample-IsValid = (validate_iff sample).0 sample_validates

pub strict_sample_validates : validate strict_sample ≡ none
unfolding validate validate_source_routes reserved_route_table ◌+ℤ◌ marks_overlap Addr.is4in6
    prefix_eq masked valid_preferred_source Addr.is_unspecified Addr.is_multicast Addr.is_loopback
    Addr.is_global_unicast family_enabled effective_tunnel_families
strict_sample_validates = refl

-- The default route of the host, and a local network behind a gateway.
abbrev pub host_route : ℕ → Addr.Addr → Route
host_route length gateway = record {
  family = af_inet;
  table = rt_table_main;
  dst = prefix_from (private_addr 0 0 0) length;
  gateway = gateway;
  preferred_source = Addr.invalid;
  link_index = pos 2;
  priority = pos 0;
  scope = pos 0;
  flags = pos 0;
  type = route_type_unicast;
  multipath = [];
}

abbrev pub local_route : Route
local_route = host_route 8 (private_addr 0 0 1)

abbrev pub host : Snapshot
host = record {
  main_routes = local_route ∷ host_route 0 (private_addr 0 0 1) ∷ host_route 24 Addr.invalid ∷ [];
}

abbrev pub plain_packet : Packet
plain_packet = record { family = af_inet; mark = 0 }

abbrev pub user_packet : Packet
user_packet = record { family = af_inet; mark = 2 }
