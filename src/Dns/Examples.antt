-- ===== src/Dns/Examples.antt =====
-- A provider on a host that keeps the file resolv.conf in memory.
use Prim.Native.String.{String}
use Prim.Native.String.{◌++◌ as ◌<>◌}
use sysnet_linux.Base.{
  ℕ, ◌≡◌, refl, ap, true, false, List, [], ◌∷◌, Option, none, some, Result, ok, err, arith,
  ok-injective, subst,
}
use sysnet_linux.Base.Unseen.{unseen}
use sysnet_linux.Net.Addr.{Addr, addr_eq, is_valid}
use sysnet_linux.Dns.Servers.{
  AddrPort, addr_port_eq, dedupe_servers, server_urls, addr_excluded, filter_addr, same_strings,
}
use sysnet_linux.Dns.Provider.{
  Provider, Call, DnsError, upstreams, refresh_upstreams, started, set_dns, unset_dns, close, run,
}
use sysnet_linux.Dns.Provider.Refreshes.{Avoids}
use sysnet_linux.Dns.Provider.Forwards.{run-Avoids}
use sysnet_linux.Dns.Provider.Closes.{IsShut, close-Refuses}
use sysnet_linux.Dns.Direct.{
  Host, FileError, not_exist, direct_resolvconf_owned, resolvconf_for_server, write_resolvconf,
  restore_resolv_conf_if_owned, direct, new_direct, resolvconf_nameservers,
}
use sysnet_linux.Dns.Direct.Files.{FileLaws}
use sysnet_linux.Dns.Direct.Restores.{new_direct-unset_dns, foreign_file_kept}

abbrev marker : String
marker = "generated by sysnet-linux direct DNS provider"

abbrev read : Option String → Result (FileError ℕ) String × Option String
read none = (err not_exist, none)
read (some bs) = (ok bs, some bs)

abbrev memory : Host
memory = record {
  State = Option String;
  Failure = ℕ;
  read_file = read;
  write_file = λ bs s. (none, some bs);
  remove_file = λ s. (none, none);
  parse_config = λ bs. ok [];
  print_config = λ as_ owner. ok ("generated by " <> owner);
  print_server = λ s. "10.0.0.53:53";
  attach = λ us s. (none, s);
  set_router = λ s. (none, s);
  close_client = λ us s. (none, s);
  close_base = λ s. (none, s);
}

abbrev contents : Option String → Option String
contents s = s

marker_owned : direct_resolvconf_owned marker ≡ true
unfolding direct_resolvconf_owned
marker_owned = refl

read_contents : (s : Option String) (bs : String) → (read s).0 ≡ ok bs → s ≡ some bs
read_contents none bs h = absurd (ground arith)
read_contents (some cs) bs h = ap some (ok-injective h)

memory_laws : FileLaws memory contents
memory_laws = record {
  read_ok = read_contents;
  read_absent = λ s. absent s;
  read_keeps = λ s. keeps s;
  written = λ bs s h. refl;
  removed_ok = λ s h. refl;
  attach_keeps = λ us s. refl;
  router_keeps = λ s. refl;
  client_keeps = λ us s. refl;
  base_keeps = λ s. refl;
  marked = λ as_ bs h. subst (λ t. direct_resolvconf_owned t ≡ true) (ok-injective h) marker_owned;
}
  where
    absent : (s : Option String) → (read s).0 ≡ err not_exist → s ≡ none
    absent none h = refl
    absent (some bs) h = absurd (ground arith)

    keeps : (s : Option String) → (read s).1 ≡ s
    keeps none = refl
    keeps (some bs) = refl

-- 127.0.0.1 and 10.0.0.53.
abbrev local : Addr
local = Addr.v4 0x7f000001

abbrev servers : List AddrPort
servers = record { addr = Addr.v4 0x0a000035; port = 53 } ∷ record { addr = local; port = 53 } ∷ []

abbrev original : Option String
original = some "nameserver 10.0.0.53"

abbrev provider : Provider
provider = record {
  closed = false;
  client = some ("udp://10.0.0.53:53" ∷ "udp://10.0.0.53:53" ∷ []);
  fallback = [];
  original_servers = servers;
  managed = Addr.invalid;
  active = false;
  upstream_sig = "udp://10.0.0.53:53" ∷ "udp://10.0.0.53:53" ∷ [];
}

provider_started : started (direct memory original) servers [] original ≡ (none, provider, original)
unfolding started refresh_upstreams upstreams filter_addr server_urls dedupe_servers unseen
    addr_port_eq addr_eq same_strings
provider_started = refl

abbrev calls : List Call
calls = Call.set_server (Addr.v4 0x0a000035) ∷ Call.unset ∷ Call.set_server local ∷ []

calls_active : (run (direct memory original) calls provider original).0.active ≡ true
unfolding set_dns unset_dns refresh_upstreams upstreams filter_addr addr_excluded server_urls
    dedupe_servers unseen addr_port_eq addr_eq same_strings write_resolvconf resolvconf_for_server
    restore_resolv_conf_if_owned direct_resolvconf_owned
calls_active = refl

run-Avoids_example :
    Avoids
      (direct memory original)
      (run (direct memory original) calls provider original).0.managed
      (run (direct memory original) calls provider original).0
run-Avoids_example =
    run-Avoids (direct memory original) servers [] calls original original provider provider_started
      calls_active

close-Refuses_example :
    IsShut (direct memory original) (close (direct memory original) provider original).1
    × (((a : Addr)
          → is_valid a ≡ true
          → set_dns
              (direct memory original)
              a
              (close (direct memory original) provider original).1
              (close (direct memory original) provider original).2
            ≡ (
              some DnsError.closed_error,
              (close (direct memory original) provider original).1,
              (close (direct memory original) provider original).2,
            ))
        × (unset_dns
              (direct memory original)
              (close (direct memory original) provider original).1
              (close (direct memory original) provider original).2
            ≡ (
              DnsError.closed_error ∷ [],
              (close (direct memory original) provider original).1,
              (close (direct memory original) provider original).2,
            ))
        × ((close (direct memory original) provider original).1.active ≡ false
            → close
                (direct memory original)
                (close (direct memory original) provider original).1
                (close (direct memory original) provider original).2
              ≡ (
                [],
                (close (direct memory original) provider original).1,
                (close (direct memory original) provider original).2,
              )))
close-Refuses_example =
    close-Refuses (direct memory original) provider original (λ h. absurd (ground arith))

abbrev managing : Provider
managing = record provider {
  client = some ("udp://10.0.0.53:53" ∷ []);
  managed = local;
  active = true;
  upstream_sig = "udp://10.0.0.53:53" ∷ [];
}

-- What NewDirect makes of a file without servers.
abbrev fallback_provider : Provider
fallback_provider = record provider { fallback = servers; original_servers = [] }

set_step : set_dns (direct memory original) local provider original ≡ (none, managing, some marker)
unfolding set_dns refresh_upstreams upstreams filter_addr addr_excluded server_urls dedupe_servers
    unseen addr_port_eq addr_eq same_strings write_resolvconf resolvconf_for_server
set_step = refl

abbrev released : Provider
released = record managing { managed = Addr.invalid; active = false }

unset_step : unset_dns (direct memory original) managing (some marker) ≡ ([], released, original)
unfolding unset_dns refresh_upstreams upstreams filter_addr addr_excluded server_urls dedupe_servers
    unseen addr_port_eq addr_eq same_strings restore_resolv_conf_if_owned direct_resolvconf_owned
unset_step = refl

built_provider :
    new_direct memory true true servers original
    ≡ (ok (record { original = original; provider = fallback_provider }), original)
unfolding new_direct resolvconf_nameservers started refresh_upstreams upstreams filter_addr
    server_urls dedupe_servers unseen addr_port_eq addr_eq same_strings
built_provider = refl

new_direct-unset_dns_example : contents original ≡ contents original
new_direct-unset_dns_example =
    new_direct-unset_dns memory contents memory_laws true true servers
      (record { original = original; provider = fallback_provider }) local provider managing
      released original original original (some marker) original built_provider set_step unset_step

mine : direct_resolvconf_owned "mine" ≡ false
unfolding direct_resolvconf_owned
mine = refl

foreign_file_kept_example :
    (contents (unset_dns (direct memory original) managing (some "mine")).2 ≡ some "mine")
    × (contents (close (direct memory original) managing (some "mine")).2 ≡ some "mine")
foreign_file_kept_example =
    foreign_file_kept memory contents memory_laws original managing (some "mine") "mine" refl mine
