-- ===== src/Dns/DebianResolvconf.antt =====
-- dns/debian_resolvconf.go: the provider that keeps a record of the command resolvconf under a name.
use Prim.Native.String.{String}
use text.Mathlib.Text.{◌==◌ as str_eq}
use sysnet_linux.Base.{err, Bool, List, [], ◌∷◌, Option, none, some, Result, if◌then◌else◌}
use sysnet_linux.Net.Addr.{Addr}
use sysnet_linux.Dns.Servers.{AddrPort}
use sysnet_linux.Dns.Provider.{Backend, Provider, DnsError, Outcome, Joined, require_dns_networks}
use sysnet_linux.Dns.Provider
use sysnet_linux.Dns.Commands.{CommandHost, run_with, command_backend, from_file}

abbrev pub debian_resolvconf_owner : String
debian_resolvconf_owner = "sysnet-linux Debian resolvconf DNS provider"

module _ (h : CommandHost) (iface : String) where
  open h.host use {State, Failure}

  unfoldable pub debian_resolvconf_for_server : Addr → Result Failure String
  debian_resolvconf_for_server server = h.host.print_config (server ∷ []) debian_resolvconf_owner

  -- The effects of SetDNS, and those of UnsetDNS and Close.
  unfoldable pub add_record : Addr → State → Option Failure × State
  add_record server = run_with h ("-a" ∷ iface ∷ []) (debian_resolvconf_for_server server)

  unfoldable pub delete_record : State → Option Failure × State
  delete_record = h.run_command ("-d" ∷ iface ∷ []) none

  abbrev pub debian_resolvconf : Backend
  debian_resolvconf = command_backend h add_record delete_record

  -- NewDebianResolvconf.
  abbrev pub unless_refused :
      Option (DnsError Failure) → List AddrPort → State → Result (DnsError Failure) Provider × State
  unless_refused (some e) fallback s = (err e, s)
  unless_refused none fallback s =
      if str_eq iface ""
      then (err DnsError.empty_name, s)
      else from_file h add_record delete_record fallback (h.host.read_file s)

  unfoldable pub new_debian_resolvconf :
      Bool → Bool → List AddrPort → State → Result (DnsError Failure) Provider × State
  new_debian_resolvconf has_listen has_dial =
      unless_refused (require_dns_networks has_listen has_dial)

  unfoldable pub set_dns : Addr → Provider → State → Outcome debian_resolvconf
  set_dns = Provider.set_dns debian_resolvconf

  unfoldable pub unset_dns : Provider → State → Joined debian_resolvconf
  unset_dns = Provider.unset_dns debian_resolvconf

  unfoldable pub close : Provider → State → Joined debian_resolvconf
  close = Provider.close debian_resolvconf

  unfoldable pub refresh_upstreams : List Addr → Provider → State → Outcome debian_resolvconf
  refresh_upstreams = Provider.refresh_upstreams debian_resolvconf
