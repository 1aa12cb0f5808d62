-- ===== src/Dns/Commands.antt =====
-- What dns/openresolv.go and dns/debian_resolvconf.go use of the host: they read /etc/resolv.conf
-- once, and run the command resolvconf.
use Prim.Native.String.{String}
use sysnet_linux.Base.{List, [], Option, none, some, Result, ok, err}
use sysnet_linux.Net.Addr.{Addr}
use sysnet_linux.Dns.Servers.{AddrPort}
use sysnet_linux.Dns.Provider.{Backend, Provider, DnsError, Outcome, started}
use sysnet_linux.Dns.Direct.{Host, FileError, not_exist, other_error, resolvconf_nameservers}

-- A host whose command resolvconf is run with arguments and, or not, an input.
pub record CommandHost : Type 1 where
  pub host : Host
  open host use {State, Failure}
  pub run_command : List String → Option String → State → Option Failure × State

module _ (h : CommandHost) where
  open h.host use {State, Failure}

  -- SetDNS runs the command with the printed configuration as its input.
  abbrev pub run_with : List String → Result Failure String → State → Option Failure × State
  run_with args (err e) s = (some e, s)
  run_with args (ok bs) s = h.run_command args (some bs) s

  -- The provider of a host, from what installs and what removes the server.
  abbrev pub command_backend :
      (Addr → State → Option Failure × State) → (State → Option Failure × State) → Backend
  command_backend install uninstall = record {
    State = h.host.State;
    Failure = h.host.Failure;
    print_server = h.host.print_server;
    attach = h.host.attach;
    set_router = h.host.set_router;
    close_client = h.host.close_client;
    close_base = h.host.close_base;
    install = install;
    uninstall = uninstall;
  }

  module _ (install : Addr → State → Option Failure × State)
      (uninstall : State → Option Failure × State) where
    -- The constructors: an error leaves the base closed.
    abbrev pub ready :
        Outcome (command_backend install uninstall) → Result (DnsError Failure) Provider × State
    ready (some e, r, s) = (err e, (h.host.close_base s).1)
    ready (none, r, s) = (ok r, s)

    abbrev pub from_servers :
        List AddrPort
        → Result Failure (List AddrPort)
        → State
        → Result (DnsError Failure) Provider × State
    from_servers fallback (err e) s = (err (DnsError.failed e), (h.host.close_base s).1)
    from_servers fallback (ok servers) s =
        ready (started (command_backend install uninstall) servers fallback s)

    abbrev pub from_file :
        List AddrPort
        → Result (FileError Failure) String × State
        → Result (DnsError Failure) Provider × State
    from_file fallback (ok bs, s) = from_servers fallback (resolvconf_nameservers h.host bs) s
    from_file fallback (err not_exist, s) = from_servers fallback (ok []) s
    from_file fallback (err (other_error e), s) = (err (DnsError.failed e), (h.host.close_base s).1)
