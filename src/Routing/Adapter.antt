-- ===== src/Routing/Adapter.antt =====
-- The interface netlinkAdapter of routing/adapter.go, through which a Manager reaches the kernel.
-- Each operation may fail and may change the state behind the interface, `State`.
use sysnet_linux.Base.{ℤ, ◌≡◌, ◌≢◌, Option, none, List, Result}
use sysnet_linux.Routing.Model.{Route, Rule, rule_unreachable}
use sysnet_linux.Routing.Manager.Listing.{listed_rule}

-- An error of LinkByIndex: ErrTUNLinkNotFound or another.
pub data LinkError (E : Type 0) : Type 0 where
  link_not_found : LinkError E
  link_failed : E → LinkError E

pub record Adapter : Type 1 where
  pub State : Type 0
  pub Failure : Type 0
  pub link_by_index : ℤ → State → Option (LinkError Failure) × State
  pub list_routes : ℤ → ℤ → State → Result Failure (List Route) × State
  pub replace_route : Route → State → Option Failure × State
  pub delete_route : Route → State → Option Failure × State
  pub list_rules : ℤ → State → Result Failure (List Rule) × State
  pub add_rule : Rule → State → Option Failure × State
  pub delete_rule : Rule → State → Option Failure × State
  pub close : State → Option Failure × State

-- What the Manager relies on about the rules that the kernel holds. A rule that was added is there.
-- Operations on links and routes, listings and additions leave the rules there. A deletion that
-- fails, or that names another priority, leaves a rule there; and a deletion removes an unreachable
-- rule only if it names that rule, or what a listing shows of it.
pub record AdapterLaws (a : Adapter) : Type 1 where
  pub Holds : Rule → a.State → Type 0
  pub add_holds : (r : Rule) (s : a.State) → (a.add_rule r s).0 ≡ none → Holds r (a.add_rule r s).1
  pub add_keeps : (q r : Rule) (s : a.State) → Holds q s → Holds q (a.add_rule r s).1
  pub failed_delete_keeps :
      (q r : Rule) (s : a.State)
      → (a.delete_rule r s).0 ≢ none
      → Holds q s
      → Holds q (a.delete_rule r s).1
  pub delete_keeps_priority :
      (q r : Rule) (s : a.State)
      → q.priority ≢ r.priority
      → Holds q s
      → Holds q (a.delete_rule r s).1
  pub delete_keeps_unreachable :
      (q r : Rule) (s : a.State)
      → q.action ≡ rule_unreachable
      → r ≢ q
      → r ≢ listed_rule q
      → Holds q s
      → Holds q (a.delete_rule r s).1
  pub link_keeps : (q : Rule) (i : ℤ) (s : a.State) → Holds q s → Holds q (a.link_by_index i s).1
  pub list_routes_keeps :
      (q : Rule) (f t : ℤ) (s : a.State) → Holds q s → Holds q (a.list_routes f t s).1
  pub list_rules_keeps : (q : Rule) (f : ℤ) (s : a.State) → Holds q s → Holds q (a.list_rules f s).1
  pub replace_route_keeps :
      (q : Rule) (r : Route) (s : a.State) → Holds q s → Holds q (a.replace_route r s).1
  pub delete_route_keeps :
      (q : Rule) (r : Route) (s : a.State) → Holds q s → Holds q (a.delete_route r s).1
