-- ===== src/Tun/Config.antt =====
-- tun/config.go: the operations on a TUN, over an interface for its file and for the netlink
-- library. The link that LinkByName finds is given by its name, its index, and whether it is up.
use Prim.Native.String.{String}
use sysnet_linux.Base.{
  ℕ, ℤ, pos, eq_ℤ, ◌==◌, Bool, true, false, not, ◌&&◌, ◌||◌, List, [], ◌∷◌, map, Option, none, some,
  Result, ok, err, if◌then◌else◌,
}
use sysnet_linux.Net.Prefix.{Prefix, masked}
use sysnet_linux.Net.Ip.{Ip, nil, IpNet}
use sysnet_linux.Routing.Unix.{rt_table_main, rtn_unicast}
use sysnet_linux.System.Options.{PrefixText}
use sysnet_linux.Tun.Prefixes.{
  NetlinkAddr, normalize_mtu, ip_net_from_prefix, prefix_from_ip_net, parse_tun_addr_prefix,
  parse_tun_addr_prefixes, parse_tun_route_prefix, parse_tun_route_prefixes,
}
use sysnet_linux.Tun.Address.{TunAddrNetlink, AddressError}
use sysnet_linux.Tun.Address.Apply.{set_tun_addr_prefixes, add_tun_addr_prefix}

-- tunInfo, and net.FlagUp of the link.
pub record TunInfo : Type 0 where
  pub name : String
  pub index : ℤ
  pub is_up : Bool

-- The fields of netlink.Route that the code reads or sets, the flags of its hops, and the gateway and
-- the metric, which it copies.
pub record TunRoute : Type 0 where
  pub link_index : ℤ
  pub scope_link : Bool
  pub family : ℤ
  pub dst : Option IpNet
  pub protocol : ℕ
  pub table : ℤ
  pub route_type : ℕ
  pub flags : ℕ
  pub hop_flags : List (Option ℕ)
  pub gateway : Ip
  pub priority : ℤ

-- RTPROT_STATIC of golang.org/x/sys/unix.
abbrev pub rtprot_static : ℕ
rtprot_static = 4

-- The file of the TUN with its ioctl and LinkByName, the operations on its link, and those on the
-- routes of the main table through it. RouteDel says apart that there is no such route (ESRCH).
pub data RouteFailure (E : Type 0) : Type 0 where
  no_such_route : RouteFailure E
  other_failure : E → RouteFailure E

pub record TunLink : Type 1 where
  pub addresses : TunAddrNetlink
  open addresses use {State, Failure}
  pub has_file : Bool
  pub find_link : State → Result Failure TunInfo × State
  pub set_mtu : ℤ → State → Option Failure × State
  pub set_down : State → Option Failure × State
  pub set_up : State → Option Failure × State
  pub set_name : String → State → Option Failure × State
  pub list_routes : ℤ → State → Result Failure (List TunRoute) × State
  pub delete_route : TunRoute → State → Option (RouteFailure Failure) × State
  pub replace_route : TunRoute → State → Option Failure × State
  pub print_net : IpNet → String

pub data TunError (E : Type 0) : Type 0 where
  unknown_tun not_a_prefix invalid_prefix : TunError E
  lookup_failed link_failed routes_failed addresses_failed : E → TunError E
  address_error : AddressError E → TunError E

abbrev pub route_to : ℤ → Option IpNet → Option TunRoute
route_to index none = none
route_to index (some dst) = some (record {
  link_index = index;
  scope_link = true;
  family = pos 0;
  dst = some dst;
  protocol = rtprot_static;
  table = rt_table_main;
  route_type = rtn_unicast;
  flags = 0;
  hop_flags = [];
  gateway = nil;
  priority = pos 0;
})

unfoldable pub netlink_route_from_prefix : ℤ → Prefix → Option TunRoute
netlink_route_from_prefix index p = route_to index (ip_net_from_prefix (masked p))

abbrev pub clear_hop : Option ℕ → Option ℕ
clear_hop none = none
clear_hop (some f) = some 0

unfoldable pub tun_route_delete_spec : TunRoute → TunRoute
tun_route_delete_spec r = record r { flags = 0; hop_flags = map clear_hop r.hop_flags }

module _ (l : TunLink) where
  open l.addresses use {State, Failure}

  abbrev pub Answer : Type 0 → Type 0
  Answer A = Result (TunError Failure) A × State

  abbrev pub Failed : Type 0
  Failed = Option (TunError Failure) × State

  -- tunFileInfo; a nil TUN has no file.
  abbrev pub found : Result Failure TunInfo × State → Answer TunInfo
  found (err e, s) = (err (lookup_failed e), s)
  found (ok i, s) = (ok i, s)

  unfoldable pub tun_file_info : State → Answer TunInfo
  tun_file_info s = if not l.has_file then (err unknown_tun, s) else found (l.find_link s)

  -- `info, err := tunFileInfo(tun)`, and what follows it.
  abbrev pub with_info_of : (TunInfo → State → Failed) → Answer TunInfo → Failed
  with_info_of f (err e, s) = (some e, s)
  with_info_of f (ok i, s) = f i s

  abbrev pub with_info : (TunInfo → State → Failed) → State → Failed
  with_info f s = with_info_of f (tun_file_info s)

  abbrev pub or_error :
      (Failure → TunError Failure) → (State → Failed) → Option Failure × State → Failed
  or_error w next (some e, s) = (some (w e), s)
  or_error w next (none, s) = next s

  abbrev pub done : State → Failed
  done s = (none, s)

  unfoldable pub set_tun_mtu : ℤ → State → Failed
  set_tun_mtu mtu = with_info (λ i s. or_error link_failed done (l.set_mtu (normalize_mtu mtu) s))

  abbrev pub wrapped : Option (AddressError Failure) × State → Failed
  wrapped (none, s) = (none, s)
  wrapped (some e, s) = (some (address_error e), s)

  -- SetTunName: a link that is up goes down for the renaming, and up again, on an error too.
  abbrev pub restored : Bool → Failure → State → Failed
  restored false e s = (some (link_failed e), s)
  restored true e s = (some (link_failed e), (l.set_up s).1)

  abbrev pub up_again : Bool → TunInfo → State → Failed
  up_again was_up i s = if was_up then or_error link_failed done (l.set_up s) else (none, s)

  abbrev pub renamed : Bool → Option Failure × State → Failed
  renamed was_up (some e, s) = restored was_up e s
  renamed was_up (none, s) = with_info (up_again was_up) s

  abbrev pub rename : String → Bool → State → Failed
  rename name was_up s = renamed was_up (l.set_name name s)

  unfoldable pub set_tun_name : String → State → Failed
  set_tun_name name = with_info (λ i s.
      if i.is_up
      then or_error link_failed (rename name true) (l.set_down s)
      else rename name false s)

  -- The two loops of SetTunRoutes.
  abbrev pub deleted : (State → Failed) → Option (RouteFailure Failure) × State → Failed
  deleted next (none, s) = next s
  deleted next (some no_such_route, s) = next s
  deleted next (some (other_failure e), s) = (some (routes_failed e), s)

  unfoldable pub delete_routes : List TunRoute → (State → Failed) → State → Failed
  delete_routes [] next s = next s
  delete_routes (r ∷ rs) next s =
      deleted (delete_routes rs next) (l.delete_route (tun_route_delete_spec r) s)

  abbrev pub replaced : (State → Failed) → Option TunRoute → State → Failed
  replaced next none s = (some invalid_prefix, s)
  replaced next (some r) s = or_error routes_failed next (l.replace_route r s)

  unfoldable pub add_routes : ℤ → List Prefix → State → Failed
  add_routes index [] s = (none, s)
  add_routes index (p ∷ ps) s = replaced (add_routes index ps) (netlink_route_from_prefix index p) s

  abbrev pub switch_routes : ℤ → List Prefix → Result Failure (List TunRoute) × State → Failed
  switch_routes index ps (err e, s) = (some (routes_failed e), s)
  switch_routes index ps (ok current, s) = delete_routes current (add_routes index ps) s

  abbrev pub set_parsed_routes : Option (List Prefix) → TunInfo → State → Failed
  set_parsed_routes none i s = (some not_a_prefix, s)
  set_parsed_routes (some ps) i s = switch_routes i.index ps (l.list_routes i.index s)

  -- GetTunRoutes and GetTunAddrs.
  unfoldable pub printed_routes : PrefixText → List TunRoute → List String
  printed_routes x [] = []
  printed_routes x (r ∷ rs) =
      let rest = printed_routes x rs in
      if not (eq_ℤ r.table rt_table_main)
        || (not (r.route_type == 0) && not (r.route_type == rtn_unicast))
      then rest
      else elim (prefix_from_ip_net r.dst r.family) [
        | none ↦ rest
        | some p ↦ x.print_prefix p ∷ rest
      ]

  unfoldable pub printed_addrs : List NetlinkAddr → List String
  printed_addrs [] = []
  printed_addrs (a ∷ as_) =
      let rest = printed_addrs as_ in elim a.ip_net [ none ↦ rest | some n ↦ l.print_net n ∷ rest ]

  abbrev pub printed_of :
      {A : Type 0}
      → (Failure → TunError Failure)
      → (A → List String)
      → Result Failure A × State
      → Answer (List String)
  printed_of w f (err e, s) = (err (w e), s)
  printed_of w f (ok a, s) = (ok (f a), s)

  abbrev pub get_with :
      (TunInfo → State → Answer (List String)) → Answer TunInfo → Answer (List String)
  get_with f (err e, s) = (err e, s)
  get_with f (ok i, s) = f i s

  unfoldable pub get_tun_routes : PrefixText → State → Answer (List String)
  get_tun_routes x s =
      get_with (λ i t. printed_of routes_failed (printed_routes x) (l.list_routes i.index t))
        (tun_file_info s)

  unfoldable pub get_tun_addrs : State → Answer (List String)
  get_tun_addrs s =
      get_with (λ i t. printed_of addresses_failed printed_addrs (l.addresses.list t))
        (tun_file_info s)

  module _ (x : PrefixText) where
    abbrev pub set_parsed_addrs : Option (List Prefix) → State → Failed
    set_parsed_addrs none s = (some not_a_prefix, s)
    set_parsed_addrs (some ps) s = wrapped (set_tun_addr_prefixes l.addresses ps s)

    unfoldable pub set_tun_addrs : List String → State → Failed
    set_tun_addrs addrs = with_info (λ i. set_parsed_addrs (parse_tun_addr_prefixes x addrs))

    abbrev pub add_parsed_addr : Option Prefix → State → Failed
    add_parsed_addr none s = (some not_a_prefix, s)
    add_parsed_addr (some p) s = wrapped (add_tun_addr_prefix l.addresses p s)

    unfoldable pub add_tun_addr : String → State → Failed
    add_tun_addr addr = with_info (λ i. add_parsed_addr (parse_tun_addr_prefix x addr))

    unfoldable pub set_tun_routes : List String → State → Failed
    set_tun_routes routes = with_info (set_parsed_routes (parse_tun_route_prefixes x routes))

    abbrev pub add_parsed_route : Option Prefix → TunInfo → State → Failed
    add_parsed_route none i s = (some not_a_prefix, s)
    add_parsed_route (some p) i s = add_routes i.index (p ∷ []) s

    unfoldable pub add_tun_route : String → State → Failed
    add_tun_route route = with_info (add_parsed_route (parse_tun_route_prefix x route))
