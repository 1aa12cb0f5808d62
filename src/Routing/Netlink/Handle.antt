-- ===== src/Routing/Netlink/Handle.antt =====
-- routing/adapter.go: the real adapter, over the handle of the netlink library.
use sysnet_linux.Base.{
  ℤ, Bool, List, [], ◌∷◌, map, Option, none, some, Result, ok, err, if◌then◌else◌,
}
use sysnet_linux.Routing.Model.{Rule, Route}
use sysnet_linux.Routing.Adapter.{Adapter, LinkError, link_not_found, link_failed}
use sysnet_linux.Routing.Netlink.{
  NetlinkRule, NetlinkRoute, RouteError, route_from_netlink, route_to_netlink, rule_from_netlink,
  rule_to_netlink, route_delete_spec,
}

-- The handle of the library and its kernel; `not_found` tells a LinkNotFoundError, `is_esrch` and
-- `is_eexist` the two errors that the code ignores.
pub record Handle : Type 1 where
  pub State : Type 0
  pub Error : Type 0
  pub not_found : Error → Bool
  pub is_esrch : Error → Bool
  pub is_eexist : Error → Bool
  pub link_by_index : ℤ → State → Option Error × State
  pub route_list_filtered : ℤ → ℤ → State → Result Error (List NetlinkRoute) × State
  pub route_replace : NetlinkRoute → State → Option Error × State
  pub route_del : NetlinkRoute → State → Option Error × State
  pub rule_list : ℤ → State → Result Error (List NetlinkRule) × State
  pub rule_add : NetlinkRule → State → Option Error × State
  pub rule_del : NetlinkRule → State → Option Error × State
  pub close : State → State

pub data RealError (E : Type 0) : Type 0 where
  netlink_failed : E → RealError E
  route_refused : RouteError → RealError E

-- The routes that routeFromNetlink accepts.
unfoldable pub normalized_routes : List NetlinkRoute → List Route
normalized_routes [] = []
normalized_routes (n ∷ ns) = elim (route_from_netlink n) [
  | none ↦ normalized_routes ns
  | some r ↦ r ∷ normalized_routes ns
]

module _ (h : Handle) where
  open h use {State, Error}

  abbrev Answer : Type 0 → Type 0
  Answer A = Result (RealError Error) A × State

  abbrev Done : Type 0
  Done = Option (RealError Error) × State

  abbrev link_answer : Option Error × State → Option (LinkError (RealError Error)) × State
  link_answer (none, s) = (none, s)
  link_answer (some e, s) =
      (some (if h.not_found e then link_not_found else link_failed (netlink_failed e)), s)

  abbrev routes_answer : Result Error (List NetlinkRoute) × State → Answer (List Route)
  routes_answer (err e, s) = (err (netlink_failed e), s)
  routes_answer (ok ns, s) = (ok (normalized_routes ns), s)

  abbrev rules_answer : Result Error (List NetlinkRule) × State → Answer (List Rule)
  rules_answer (err e, s) = (err (netlink_failed e), s)
  rules_answer (ok ns, s) = (ok (map rule_from_netlink ns), s)

  -- An error that is not ignored.
  abbrev unless_ignored : (Error → Bool) → Option Error × State → Done
  unless_ignored ignored (none, s) = (none, s)
  unless_ignored ignored (some e, s) = (if ignored e then none else some (netlink_failed e), s)

  abbrev fails : Option Error × State → Done
  fails (none, s) = (none, s)
  fails (some e, s) = (some (netlink_failed e), s)

  unfoldable pub replace_encoded : Result RouteError NetlinkRoute → State → Done
  replace_encoded (err e) s = (some (route_refused e), s)
  replace_encoded (ok n) s = fails (h.route_replace n s)

  unfoldable pub delete_encoded : Result RouteError NetlinkRoute → State → Done
  delete_encoded (err e) s = (some (route_refused e), s)
  delete_encoded (ok n) s = unless_ignored h.is_esrch (h.route_del n s)

  -- `new_rule` is what netlink.NewRule returns.
  abbrev pub real_adapter : NetlinkRule → Adapter
  real_adapter new_rule = record {
    State = State;
    Failure = RealError Error;
    link_by_index = λ i s. link_answer (h.link_by_index i s);
    list_routes = λ family table s. routes_answer (h.route_list_filtered family table s);
    replace_route = λ r s. replace_encoded (route_to_netlink r) s;
    delete_route = λ r s. delete_encoded (route_to_netlink (route_delete_spec r)) s;
    list_rules = λ family s. rules_answer (h.rule_list family s);
    add_rule = λ r s. unless_ignored h.is_eexist (h.rule_add (rule_to_netlink new_rule r) s);
    delete_rule = λ r s. unless_ignored h.is_esrch (h.rule_del (rule_to_netlink new_rule r) s);
    close = λ s. (none, h.close s);
  }
