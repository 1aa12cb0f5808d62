-- ===== src/System/Live/Examples.antt =====
-- The updates on a TUN that accepts everything, with a kernel that refuses new policy rules.
use Prim.Native.String.{String}
use sysnet_linux.Base.{ℕ, pos, refl, true, false, List, [], ◌∷◌, none, some, ok}
use sysnet_linux.Net.Addr.{Addr}
use sysnet_linux.Net.Prefix.{prefix_from}
use sysnet_linux.Routing.Model.{Rule}
use sysnet_linux.Routing.Compiler.{desired_state}
use sysnet_linux.Routing.Compiler.Routes.{valid_compiles}
use sysnet_linux.Routing.Adapter.{Adapter}
use sysnet_linux.Routing.Examples.Sample.{sample, sample_validates, host}
use sysnet_linux.Routing.Examples.Kernel.{kernel}
use sysnet_linux.System.Options.{PrefixText}
use sysnet_linux.System.Updates.{
  TunState, set_default_tun_addrs, add_default_tun_addr, set_default_tun_routes,
}
use sysnet_linux.Tun.Config.{TunLink}
use sysnet_linux.System.Live.{SharedKernel, Live, live}
use sysnet_linux.System.Live.Restored.{HasApplied}
use sysnet_linux.System.Live.InSync.{Agrees, updates-Agrees}

abbrev link : TunLink
link = record {
  addresses = record {
    State = Unit;
    Failure = ℕ;
    list = λ s. (ok [], s);
    replace = λ a s. (none, s);
    delete = λ a s. (none, s);
  };
  has_file = true;
  find_link = λ s. (ok (record { name = "tun0"; index = pos 7; is_up = true }), s);
  set_mtu = λ m s. (none, s);
  set_down = λ s. (none, s);
  set_up = λ s. (none, s);
  set_name = λ t s. (none, s);
  list_routes = λ i s. (ok [], s);
  delete_route = λ r s. (none, s);
  replace_route = λ r s. (none, s);
  print_net = λ n. "";
}

abbrev refusing : Adapter
refusing = kernel false true

abbrev shared : SharedKernel link refusing
shared = record {
  Kernel = List Rule;
  tun_view = λ k. tt;
  put_tun = λ t k. k;
  routing_view = λ k. k;
  put_routing = λ t k. t;
}

abbrev texts : PrefixText
texts = record {
  parse_prefix = λ t. some (prefix_from (Addr.v4 0x0a080002) 24);
  print_prefix = λ p. "10.8.0.2/24";
  parse_addr = λ t. some (Addr.v4 0x0a080002);
  print_addr = λ a. "10.8.0.2";
}

abbrev tun_state : TunState
tun_state = record {
  dns_ip = Addr.v4 0x0a080002;
  addrs = "10.8.0.2/24" ∷ [];
  routes = [];
  routing_config = some sample;
}

abbrev running : Live link refusing shared
running = record {
  manager = record { closed = false; applied = some (desired_state sample host) };
  kernel = [];
}

sample_applied : HasApplied sample running.manager
sample_applied =
    (host, desired_state sample host, valid_compiles sample host sample_validates, refl)

updates-Agrees_example :
    ((addrs : List String)
      → Agrees link refusing shared texts (
          set_default_tun_addrs texts
            (live link refusing shared texts)
            "10.8.0.2/24"
            addrs
            tun_state
            running))
    × ((addr : String)
        → Agrees link refusing shared texts (
            add_default_tun_addr texts
              (live link refusing shared texts)
              "10.8.0.2/24"
              addr
              tun_state
              running))
    × ((routes : List String)
        → Agrees link refusing shared texts (
            set_default_tun_routes texts
              (live link refusing shared texts)
              routes
              tun_state
              running))
updates-Agrees_example =
    updates-Agrees link refusing shared texts "10.8.0.2/24" tun_state running sample_applied
