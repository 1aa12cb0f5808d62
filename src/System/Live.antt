-- ===== src/System/Live.antt =====
-- systemTunConfigurator of sysnet.go: the updates of the default TUN use a TUN of tun/config.go, and
-- a Manager of routing/manager.go.
pub mod Restored
pub mod InSync
mod Examples
use Prim.Native.String.{String}
use sysnet_linux.Base.{List, Option, none, some, Result, ok, err}
use sysnet_linux.Routing.Config.{Config}
use sysnet_linux.Routing.Adapter.{Adapter}
use sysnet_linux.Routing.Manager.Steps.{ManagerError}
use sysnet_linux.Routing.Manager.{Manager}
use sysnet_linux.Routing.Manager
use sysnet_linux.System.Options.{PrefixText}
use sysnet_linux.System.Updates.{Host}
use sysnet_linux.Tun.Config.{TunLink, TunError}
use sysnet_linux.Tun.Config

-- The kernel that the TUN and the adapter of the Manager share, with what each sees of it.
pub record SharedKernel (l : TunLink) (a : Adapter) : Type 1 where
  pub Kernel : Type 0
  pub tun_view : Kernel → l.addresses.State
  pub put_tun : l.addresses.State → Kernel → Kernel
  pub routing_view : Kernel → a.State
  pub put_routing : a.State → Kernel → Kernel

pub data LiveFailure (T A : Type 0) : Type 0 where
  tun_failed : TunError T → LiveFailure T A
  manager_failed : ManagerError A → LiveFailure T A

pub record LiveState (K : Type 0) : Type 0 where
  pub manager : Manager
  pub kernel : K

module _ (l : TunLink) (a : Adapter) (v : SharedKernel l a) where
  abbrev pub Live : Type 0
  Live = LiveState v.Kernel

  abbrev pub Failure : Type 0
  Failure = LiveFailure l.addresses.Failure a.Failure

  abbrev pub with_tun : Live → l.addresses.State → Live
  with_tun s t = record s { kernel = v.put_tun t s.kernel }

  abbrev pub in_tun :
      Live → Option (TunError l.addresses.Failure) × l.addresses.State → Option Failure × Live
  in_tun s (none, t) = (none, with_tun s t)
  in_tun s (some e, t) = (some (tun_failed e), with_tun s t)

  abbrev pub read_in_tun :
      Live
      → Result (TunError l.addresses.Failure) (List String) × l.addresses.State
      → Result Failure (List String) × Live
  read_in_tun s (ok r, t) = (ok r, with_tun s t)
  read_in_tun s (err e, t) = (err (tun_failed e), with_tun s t)

  abbrev pub in_manager : Live → Manager.Outcome a → Option Failure × Live
  in_manager s (none, m, t) = (none, record { manager = m; kernel = v.put_routing t s.kernel })
  in_manager s (some e, m, t) =
      (some (manager_failed e), record { manager = m; kernel = v.put_routing t s.kernel })

  abbrev pub live : PrefixText → Host
  live x = record {
    State = Live;
    Failure = Failure;
    get_tun_addrs = λ s. read_in_tun s (Config.get_tun_addrs l (v.tun_view s.kernel));
    get_tun_routes = λ s. read_in_tun s (Config.get_tun_routes l x (v.tun_view s.kernel));
    set_tun_addrs = λ addrs s. in_tun s (Config.set_tun_addrs l x addrs (v.tun_view s.kernel));
    add_tun_addr = λ addr s. in_tun s (Config.add_tun_addr l x addr (v.tun_view s.kernel));
    set_tun_routes = λ routes s. in_tun s (Config.set_tun_routes l x routes (v.tun_view s.kernel));
    apply = λ c s. in_manager s (Manager.apply a c s.manager (v.routing_view s.kernel));
    rollback = λ c s. in_manager s (Manager.rollback a c s.manager (v.routing_view s.kernel));
  }
