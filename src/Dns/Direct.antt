-- ===== src/Dns/Direct.antt =====
-- dns/direct.go: the provider that writes /etc/resolv.conf itself. That the package resolvconffile
-- parses and prints the file is a parameter.
pub mod Files
pub mod Restores
use Prim.Native.String.{String}
use Prim.Native.String.{◌++◌ as ◌<>◌}
use text.Mathlib.Text.{find?}
use sysnet_linux.Base.{
  ℕ, Bool, true, false, not, List, [], ◌∷◌, map, Option, none, some, Result, ok, err, if◌then◌else◌,
}
use sysnet_linux.Net.Addr.{Addr}
use sysnet_linux.Dns.Servers.{AddrPort, dedupe_servers}
use sysnet_linux.Dns.Provider.{Backend, Provider, DnsError, Outcome, started, require_dns_networks}

-- An error of a file operation: there is no such file, or another.
pub data FileError (E : Type 0) : Type 0 where
  not_exist : FileError E
  other_error : E → FileError E

-- Env and the router, as far as Direct uses them, with resolvconffile.Parse and Config.Write, which
-- is given the servers and the owner.
pub record Host : Type 1 where
  pub State : Type 0
  pub Failure : Type 0
  pub read_file : State → Result (FileError Failure) String × State
  pub write_file : String → State → Option Failure × State
  pub remove_file : State → Option (FileError Failure) × State
  pub parse_config : String → Result Failure (List Addr)
  pub print_config : List Addr → String → Result Failure String
  pub print_server : AddrPort → String
  pub attach : List String → State → Option Failure × State
  pub set_router : State → Option Failure × State
  pub close_client : List String → State → Option Failure × State
  pub close_base : State → Option Failure × State

abbrev pub direct_owner : String
direct_owner = "sysnet-linux direct DNS provider"

-- directResolvconfOwned.
abbrev pub is_found : Option ℕ → Bool
is_found none = false
is_found (some n) = true

unfoldable pub direct_resolvconf_owned : String → Bool
direct_resolvconf_owned bs = is_found (find? bs ("generated by " <> direct_owner))

module _ (h : Host) where
  open h use {State, Failure}

  -- resolvconfNameservers.
  abbrev pub servers_of : Result Failure (List Addr) → Result Failure (List AddrPort)
  servers_of (err e) = err e
  servers_of (ok addrs) = ok (dedupe_servers (map (λ a. record { addr = a; port = 53 }) addrs))

  unfoldable pub resolvconf_nameservers : String → Result Failure (List AddrPort)
  resolvconf_nameservers bs = servers_of (h.parse_config bs)

  unfoldable pub resolvconf_for_server : Addr → Result Failure String
  resolvconf_for_server server = h.print_config (server ∷ []) direct_owner

  -- What SetDNS does once the upstream servers are refreshed.
  abbrev pub write_result : Result Failure String → State → Option Failure × State
  write_result (err e) s = (some e, s)
  write_result (ok bs) s = h.write_file bs s

  unfoldable pub write_resolvconf : Addr → State → Option Failure × State
  write_resolvconf server = write_result (resolvconf_for_server server)

  -- restoreResolvConfIfOwned, for the contents that the constructor saw.
  abbrev pub removed : Option (FileError Failure) × State → Option Failure × State
  removed (none, s) = (none, s)
  removed (some not_exist, s) = (none, s)
  removed (some (other_error e), s) = (some e, s)

  abbrev pub put_back : Option String → State → Option Failure × State
  put_back (some bs) s = h.write_file bs s
  put_back none s = removed (h.remove_file s)

  abbrev pub restore_read :
      Option String → Result (FileError Failure) String × State → Option Failure × State
  restore_read original (err (other_error e), s) = (some e, s)
  restore_read original (err not_exist, s) = put_back original s
  restore_read original (ok bs, s) =
      if not (direct_resolvconf_owned bs) then (none, s) else put_back original s

  unfoldable pub restore_resolv_conf_if_owned : Option String → State → Option Failure × State
  restore_resolv_conf_if_owned original s = restore_read original (h.read_file s)

  -- The effects of a Direct, whose field `original` never changes.
  abbrev pub direct : Option String → Backend
  direct original = record {
    State = h.State;
    Failure = h.Failure;
    print_server = h.print_server;
    attach = h.attach;
    set_router = h.set_router;
    close_client = h.close_client;
    close_base = h.close_base;
    install = write_resolvconf;
    uninstall = restore_resolv_conf_if_owned original;
  }

  -- NewDirect: the original contents and the provider, or an error, after which the base is closed.
  pub record Built : Type 0 where
    pub original : Option String
    pub provider : Provider

  abbrev pub built : Option String → Outcome (direct none) → Result (DnsError Failure) Built × State
  built original (some e, r, s) = (err e, (h.close_base s).1)
  built original (none, r, s) = (ok (record { original = original; provider = r }), s)

  abbrev pub parsed :
      List AddrPort
      → String
      → Result Failure (List AddrPort)
      → State
      → Result (DnsError Failure) Built × State
  parsed fallback bs (err e) s = (err (DnsError.failed e), (h.close_base s).1)
  parsed fallback bs (ok servers) s = built (some bs) (started (direct none) servers fallback s)

  abbrev pub read_original :
      List AddrPort
      → Result (FileError Failure) String × State
      → Result (DnsError Failure) Built × State
  read_original fallback (ok bs, s) = parsed fallback bs (resolvconf_nameservers bs) s
  read_original fallback (err not_exist, s) = built none (started (direct none) [] fallback s)
  read_original fallback (err (other_error e), s) = (err (DnsError.failed e), (h.close_base s).1)

  abbrev pub unless_refused :
      Option (DnsError Failure) → List AddrPort → State → Result (DnsError Failure) Built × State
  unless_refused (some e) fallback s = (err e, s)
  unless_refused none fallback s = read_original fallback (h.read_file s)

  unfoldable pub new_direct :
      Bool → Bool → List AddrPort → State → Result (DnsError Failure) Built × State
  new_direct has_listen has_dial = unless_refused (require_dns_networks has_listen has_dial)
