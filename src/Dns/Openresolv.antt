-- ===== src/Dns/Openresolv.antt =====
-- dns/openresolv.go: the provider that keeps a record of the command resolvconf under a name.
use Prim.Native.String.{String}
use text.Mathlib.Text.{◌==◌ as str_eq}
use sysnet_linux.Base.{err, Bool, List, [], ◌∷◌, Option, none, some, Result, if◌then◌else◌}
use sysnet_linux.Net.Addr.{Addr}
use sysnet_linux.Dns.Servers.{AddrPort}
use sysnet_linux.Dns.Provider.{Backend, Provider, DnsError, Outcome, Joined, require_dns_networks}
use sysnet_linux.Dns.Provider
use sysnet_linux.Dns.Commands.{CommandHost, run_with, command_backend, from_file}

abbrev pub openresolv_owner : String
openresolv_owner = "sysnet-linux openresolv DNS provider"

module _ (h : CommandHost) (iface : String) where
  open h.host use {State, Failure}

  unfoldable pub openresolv_for_server : Addr → Result Failure String
  openresolv_for_server server = h.host.print_config (server ∷ []) openresolv_owner

  -- The effects of SetDNS, and those of UnsetDNS and Close.
  unfoldable pub add_record : Addr → State → Option Failure × State
  add_record server =
      run_with h ("-m" ∷ "0" ∷ "-x" ∷ "-a" ∷ iface ∷ []) (openresolv_for_server server)

  unfoldable pub delete_record : State → Option Failure × State
  delete_record = h.run_command ("-f" ∷ "-d" ∷ iface ∷ []) none

  abbrev pub openresolv : Backend
  openresolv = command_backend h add_record delete_record

  -- NewOpenresolv.
  abbrev pub unless_refused :
      Option (DnsError Failure) → List AddrPort → State → Result (DnsError Failure) Provider × State
  unless_refused (some e) fallback s = (err e, s)
  unless_refused none fallback s =
      if str_eq iface ""
      then (err DnsError.empty_name, s)
      else from_file h add_record delete_record fallback (h.host.read_file s)

  unfoldable pub new_openresolv :
      Bool → Bool → List AddrPort → State → Result (DnsError Failure) Provider × State
  new_openresolv has_listen has_dial = unless_refused (require_dns_networks has_listen has_dial)

  unfoldable pub set_dns : Addr → Provider → State → Outcome openresolv
  set_dns = Provider.set_dns openresolv

  unfoldable pub unset_dns : Provider → State → Joined openresolv
  unset_dns = Provider.unset_dns openresolv

  unfoldable pub close : Provider → State → Joined openresolv
  close = Provider.close openresolv

  unfoldable pub refresh_upstreams : List Addr → Provider → State → Outcome openresolv
  refresh_upstreams = Provider.refresh_upstreams openresolv
