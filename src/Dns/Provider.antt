-- ===== src/Dns/Provider.antt =====
-- dns/direct.go, and with other effects dns/openresolv.go and dns/debian_resolvconf.go: a provider
-- sets the system's DNS server, takes it back, and forwards requests to upstream servers. The three
-- types have the same fields and code up to what installs and removes the server, which is a
-- parameter here. Calls do not overlap: each is one step.
pub mod Upstreams
pub mod Refreshes
pub mod Forwards
pub mod Closes
use Prim.Native.String.{String}
use sysnet_linux.Base.{
  Bool, true, false, not, ◌&&◌, List, [], ◌∷◌, ◌++◌, Option, none, some, if◌then◌else◌,
}
use sysnet_linux.Net.Addr.{Addr, is_valid, addr_eq}
use sysnet_linux.Dns.Servers.{AddrPort, server_urls, filter_addr, same_strings}

-- What a provider does to the host and to the router that forwards its requests. A client is given
-- by the URLs of its servers.
pub record Backend : Type 1 where
  pub State : Type 0
  pub Failure : Type 0
  pub print_server : AddrPort → String
  pub attach : List String → State → Option Failure × State
  pub set_router : State → Option Failure × State
  pub close_client : List String → State → Option Failure × State
  pub close_base : State → Option Failure × State
  pub install : Addr → State → Option Failure × State
  pub uninstall : State → Option Failure × State

pub record Provider : Type 0 where
  pub closed : Bool
  pub client : Option (List String)
  pub fallback : List AddrPort
  pub original_servers : List AddrPort
  pub managed : Addr
  pub active : Bool
  pub upstream_sig : List String

pub data DnsError (E : Type 0) : Type 0 where
  invalid_server closed_error no_upstreams : DnsError E
  nil_listen_network nil_dial_network empty_name : DnsError E
  failed : E → DnsError E

-- requireDNSNetworks, by whether each network is not nil.
abbrev pub require_dns_networks : {E : Type 0} → Bool → Bool → Option (DnsError E)
require_dns_networks false has_dial = some nil_listen_network
require_dns_networks true false = some nil_dial_network
require_dns_networks true true = none

-- The servers that refreshUpstreams chooses.
abbrev pub or_fallback : List AddrPort → List AddrPort → List AddrPort
or_fallback [] fallback = fallback
or_fallback (x ∷ xs) fallback = x ∷ xs

unfoldable pub upstreams : Provider → List Addr → List AddrPort
upstreams r exclude =
    or_fallback (filter_addr r.original_servers exclude) (filter_addr r.fallback exclude)

abbrev pub deactivated : Provider → Provider
deactivated r = record r { managed = Addr.invalid; active = false }

-- What a constructor makes before it refreshes the upstream servers.
abbrev pub new_provider : List AddrPort → List AddrPort → Provider
new_provider original fallback = record {
  closed = false;
  client = none;
  fallback = fallback;
  original_servers = original;
  managed = Addr.invalid;
  active = false;
  upstream_sig = [];
}

pub data Call : Type 0 where
  set_server : Addr → Call
  unset close_it : Call

module _ (b : Backend) where
  open b use {State, Failure}

  abbrev pub Outcome : Type 0
  Outcome = Option (DnsError Failure) × Provider × State

  -- `_ = client.Close()` of the old client, if any.
  abbrev pub close_old : Option (List String) → State → State
  close_old none s = s
  close_old (some urls) s = (b.close_client urls s).1

  abbrev pub routed : List String → Provider → Option Failure × State → Outcome
  routed urls r (some e, s) = (some (failed e), r, (b.close_client urls s).1)
  routed urls r (none, s) =
      (none, record r { client = some urls; upstream_sig = urls }, close_old r.client s)

  abbrev pub attached : List String → Provider → Option Failure × State → Outcome
  attached urls r (some e, s) = (some (failed e), r, (b.close_client urls s).1)
  attached urls r (none, s) = routed urls r (b.set_router s)

  abbrev pub switch_client : List String → Provider → State → Outcome
  switch_client [] r s = (some no_upstreams, r, s)
  switch_client (u ∷ us) r s =
      if same_strings (u ∷ us) r.upstream_sig
      then (none, r, s)
      else (if r.closed
          then (some closed_error, r, (b.close_client (u ∷ us) s).1)
          else attached (u ∷ us) r (b.attach (u ∷ us) s))

  unfoldable pub refresh_upstreams : List Addr → Provider → State → Outcome
  refresh_upstreams exclude r s =
      switch_client (server_urls b.print_server (upstreams r exclude)) r s

  -- SetDNS.
  abbrev pub installed : Addr → Provider → Option Failure × State → Outcome
  installed server r (some e, s) = (some (failed e), r, s)
  installed server r (none, s) = (none, record r { managed = server; active = true }, s)

  abbrev pub install_after : Addr → Outcome → Outcome
  install_after server (some e, r, s) = (some e, r, s)
  install_after server (none, r, s) = installed server r (b.install server s)

  unfoldable pub set_dns : Addr → Provider → State → Outcome
  set_dns server r s =
      if not (is_valid server)
      then (some invalid_server, r, s)
      else (if r.closed
          then (some closed_error, r, s)
          else install_after server
              (refresh_upstreams (server ∷ (if r.active then r.managed ∷ [] else [])) r s))

  -- UnsetDNS; the errors are joined.
  abbrev pub Joined : Type 0
  Joined = List (DnsError Failure) × Provider × State

  abbrev pub errors_of : Option Failure → List (DnsError Failure)
  errors_of none = []
  errors_of (some e) = failed e ∷ []

  abbrev pub forget : Addr → Provider → Provider
  forget server r = if r.active && addr_eq r.managed server then deactivated r else r

  abbrev pub refreshed : Addr → Option Failure → Outcome → Joined
  refreshed server none (none, r, s) = ([], forget server r, s)
  refreshed server (some e) (none, r, s) = (failed e ∷ [], r, s)
  refreshed server o (some f, r, s) = (errors_of o ++ f ∷ [], r, s)

  abbrev pub after_uninstall : Provider → Option Failure × State → Joined
  after_uninstall r (o, s) = refreshed r.managed o (refresh_upstreams (r.managed ∷ []) r s)

  unfoldable pub unset_dns : Provider → State → Joined
  unset_dns r s =
      if r.closed
      then (closed_error ∷ [], r, s)
      else (if not r.active then ([], r, s) else after_uninstall r (b.uninstall s))

  -- Close.
  abbrev pub close_held : Option (List String) → State → Option Failure × State
  close_held none s = (none, s)
  close_held (some urls) s = b.close_client urls s

  abbrev pub close_clients :
      List (DnsError Failure) → Option (List String) → Provider → State → Joined
  close_clients es c r s =
      let (e1, s1) = b.close_base s in
      let (e2, s2) = close_held c s1 in (es ++ (errors_of e1 ++ errors_of e2), r, s2)

  abbrev pub after_cleanup : Option (List String) → Provider → Option Failure × State → Joined
  after_cleanup c r (some e, s) = close_clients (failed e ∷ []) c r s
  after_cleanup c r (none, s) = close_clients [] c (deactivated r) s

  unfoldable pub close : Provider → State → Joined
  close r s =
      let r' = record r { closed = true; client = none } in
      if r.closed && not r.active
      then ([], r, s)
      else (if r.active
          then after_cleanup r.client r' (b.uninstall s)
          else close_clients [] r.client r' s)

  -- The end of a constructor.
  unfoldable pub started : List AddrPort → List AddrPort → State → Outcome
  started original fallback = refresh_upstreams [] (new_provider original fallback)

  abbrev pub run_call : Call → Provider → State → Provider × State
  run_call (set_server a) r s = let (e, r', s') = set_dns a r s in (r', s')
  run_call unset r s = let (es, r', s') = unset_dns r s in (r', s')
  run_call close_it r s = let (es, r', s') = close r s in (r', s')

  abbrev pub run : List Call → Provider → State → Provider × State
  run [] r s = (r, s)
  run (c ∷ cs) r s = let (r', s') = run_call c r s in run cs r' s'
