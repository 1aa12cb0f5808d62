-- ===== src/System/Updates.antt =====
-- sysnet.go: the updates of the addresses and routes of the default TUN, over interfaces for the
-- configuration of links and for the routing manager. An update that fails tries to restore the link
-- and the routing.
use Prim.Native.String.{String}
use text.Mathlib.Text.{◌==◌ as str_eq}
use sysnet_linux.Base.{
  not, List, [], ◌∷◌, ◌++◌, Option, none, some, Result, ok, err, any, if◌then◌else◌,
}
use sysnet_linux.Net.Addr.{Addr, addr_eq}
use sysnet_linux.Routing.Model.{SourceRoute}
use sysnet_linux.Routing.Config.{
  Config, FamilySet, both_families, Strictness, strict, non_strict, strictness_other,
}
use sysnet_linux.Routing.Manager.Steps.{each_join}
use sysnet_linux.System.Options.{
  PrefixText, ResultOf, OptionError, assigned_addrs, normalize_tun_addrs, route_families,
}

-- The operations on the native TUN and on the routing manager that an update uses.
pub record Host : Type 1 where
  pub State : Type 0
  pub Failure : Type 0
  pub get_tun_addrs : State → Result Failure (List String) × State
  pub get_tun_routes : State → Result Failure (List String) × State
  pub set_tun_addrs : List String → State → Option Failure × State
  pub add_tun_addr : String → State → Option Failure × State
  pub set_tun_routes : List String → State → Option Failure × State
  pub apply : Config → State → Option Failure × State
  pub rollback : Config → State → Option Failure × State

-- The fields of defaultTunState that an update reads or writes.
pub record TunState : Type 0 where
  pub dns_ip : Addr
  pub addrs : List String
  pub routes : List String
  pub routing_config : Option Config

pub data UpdateError (E : Type 0) : Type 0 where
  unknown_tun dns_address_changes : UpdateError E
  invalid_option : OptionError → UpdateError E
  removes_source : Addr → UpdateError E
  -- What failed first, and then the failures of the restoration.
  failed : E → List E → UpdateError E

abbrev pub families_for : Strictness → FamilySet → FamilySet
families_for strict tunnel = both_families
families_for non_strict tunnel = tunnel
families_for (strictness_other _) tunnel = tunnel

-- The first source that is not assigned.
abbrev pub removed_source : List Addr → List SourceRoute → Option Addr
removed_source assigned [] = none
removed_source assigned (r ∷ rs) =
    let rest = removed_source assigned rs in
    if any (addr_eq r.source) assigned then rest else some r.source

module _ (x : PrefixText) where
  -- setDefaultTunRoutingFamilies.
  unfoldable pub set_default_tun_routing_families : List String → List String → Config → Config
  set_default_tun_routing_families addrs routes c = record c {
    tunnel_families = route_families x addrs routes;
    families = families_for c.strictness (route_families x addrs routes);
  }

  -- validateDefaultTunSourceAddrs.
  abbrev pub source_error : {E : Type 0} → Option Addr → Option (UpdateError E)
  source_error none = none
  source_error (some a) = some (removes_source a)

  abbrev pub sources_checked :
      {E : Type 0} → List SourceRoute → ResultOf (List Addr) → Option (UpdateError E)
  sources_checked rs (err e) = some (invalid_option e)
  sources_checked rs (ok assigned) = source_error (removed_source assigned rs)

  unfoldable pub validate_default_tun_source_addrs :
      {E : Type 0} → List String → List SourceRoute → Option (UpdateError E)
  validate_default_tun_source_addrs addrs rs = sources_checked rs (assigned_addrs x addrs)

  module _ (h : Host) where
    open h use {State, Failure}

    abbrev pub Outcome : Type 0
    Outcome = Option (UpdateError Failure) × TunState × State

    abbrev pub Restoring : Type 0
    Restoring = List (State → Option Failure × State)

    -- restoreDefaultTunLinkLocked and restoreDefaultTunRoutingLocked.
    abbrev pub restore_link : List String → List String → Restoring
    restore_link addrs routes = h.set_tun_addrs addrs ∷ h.set_tun_routes routes ∷ []

    abbrev pub restore_routing : Config → Config → Restoring
    restore_routing old failed_config = h.rollback failed_config ∷ h.apply old ∷ []

    -- An error, and the restoration that follows it.
    unfoldable pub fail : TunState → Failure → Restoring → State → Outcome
    fail st e restoring s =
        let (es, s') = each_join (λ f. f) restoring s in (some (failed e es), st, s')

    abbrev pub or_fail : TunState → Restoring → (State → Outcome) → Option Failure × State → Outcome
    or_fail st restoring next (none, s) = next s
    or_fail st restoring next (some e, s) = fail st e restoring s

    abbrev pub got :
        TunState → (List String → State → Outcome) → Result Failure (List String) × State → Outcome
    got st next (err e, s) = (some (failed e []), st, s)
    got st next (ok r, s) = next r s

    abbrev pub set_or_add : List String → Option String → State → Option Failure × State
    set_or_add addrs none = h.set_tun_addrs addrs
    set_or_add addrs (some added) =
        if str_eq added "" then h.set_tun_addrs addrs else h.add_tun_addr added

    -- The end of updateDefaultTunAddrsLocked, backwards: the record, Apply, the main table, and the
    -- addresses. `back` restores the link.
    abbrev pub record_addrs : TunState → Config → List String → State → Outcome
    record_addrs st new addrs s = (none, record st { addrs = addrs; routing_config = some new }, s)

    abbrev pub apply_addrs : TunState → Config → Config → List String → Restoring → State → Outcome
    apply_addrs st old new addrs back s =
        or_fail st (back ++ restore_routing old new) (record_addrs st new addrs) (h.apply new s)

    abbrev pub clear_main : TunState → Config → Config → List String → Restoring → State → Outcome
    clear_main st old new addrs back s =
        or_fail st back (apply_addrs st old new addrs back) (h.set_tun_routes [] s)

    unfoldable pub switch_addrs :
        TunState
        → Config
        → List String
        → Option String
        → List String
        → List String
        → State
        → Outcome
    switch_addrs st old addrs added old_addrs old_routes s =
        let new = set_default_tun_routing_families addrs st.routes old in
        let back = restore_link old_addrs old_routes in
        or_fail st back (clear_main st old new addrs back) (set_or_add addrs added s)

    abbrev pub checked :
        TunState → Option (UpdateError Failure) → (State → Outcome) → State → Outcome
    checked st (some e) next s = (some e, st, s)
    checked st none next s = next s

    abbrev pub with_config : TunState → Option Config → (Config → State → Outcome) → State → Outcome
    with_config st none next s = (some unknown_tun, st, s)
    with_config st (some c) next s = next c s

    -- updateDefaultTunAddrsLocked.
    abbrev pub read_routes :
        TunState → Config → List String → Option String → List String → State → Outcome
    read_routes st old addrs added old_addrs s =
        got st (switch_addrs st old addrs added old_addrs) (h.get_tun_routes s)

    abbrev pub read_addrs : TunState → Config → List String → Option String → State → Outcome
    read_addrs st old addrs added s = got st (read_routes st old addrs added) (h.get_tun_addrs s)

    abbrev pub update_from : TunState → List String → Option String → Config → State → Outcome
    update_from st addrs added old =
        checked st (validate_default_tun_source_addrs addrs old.source_routes)
          (read_addrs st old addrs added)

    unfoldable pub update_default_tun_addrs :
        List String → Option String → TunState → State → Outcome
    update_default_tun_addrs addrs added st =
        with_config st st.routing_config (update_from st addrs added)

    -- What follows normalizeTunAddrs.
    abbrev pub normalized :
        Option String → TunState → ResultOf (List String × Addr) → State → Outcome
    normalized added st (err e) s = (some (invalid_option e), st, s)
    normalized added st (ok (addrs, dns_ip)) s =
        if not (addr_eq dns_ip st.dns_ip)
        then (some dns_address_changes, st, s)
        else update_default_tun_addrs addrs added st s

    unfoldable pub set_default_tun_addrs : String → List String → TunState → State → Outcome
    set_default_tun_addrs cidr addrs st =
        normalized none st (normalize_tun_addrs x addrs cidr (x.print_addr st.dns_ip))

    unfoldable pub add_default_tun_addr : String → String → TunState → State → Outcome
    add_default_tun_addr cidr addr st s =
        if any (str_eq addr) st.addrs
        then (none, st, s)
        else normalized (some addr) st
            (normalize_tun_addrs x (st.addrs ++ addr ∷ []) cidr (x.print_addr st.dns_ip)) s

    -- setDefaultTunRoutesLocked.
    abbrev pub record_routes : TunState → Config → List String → State → Outcome
    record_routes st new routes s =
        (none, record st { routes = routes; routing_config = some new }, s)

    abbrev pub apply_routes : TunState → Config → Config → List String → Restoring → State → Outcome
    apply_routes st old new routes back s =
        or_fail st (back ++ restore_routing old new) (record_routes st new routes) (h.apply new s)

    unfoldable pub switch_routes : TunState → Config → List String → List String → State → Outcome
    switch_routes st old routes old_routes s =
        let new = set_default_tun_routing_families st.addrs routes old in
        let back = h.set_tun_routes old_routes ∷ [] in
        or_fail st back (apply_routes st old new routes back) (h.set_tun_routes [] s)

    abbrev pub routes_from : TunState → List String → Config → State → Outcome
    routes_from st routes old s = got st (switch_routes st old routes) (h.get_tun_routes s)

    unfoldable pub set_default_tun_routes : List String → TunState → State → Outcome
    set_default_tun_routes routes st = with_config st st.routing_config (routes_from st routes)
