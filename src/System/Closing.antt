-- ===== src/System/Closing.antt =====
-- default_tun.go: how the default TUN is closed (Close and closeActive), and SetDNS, over an
-- interface for the parts that it holds.
pub mod Released
mod Examples
use sysnet_linux.Base.{
  ℕ, ◌==◌, Bool, true, false, not, ◌&&◌, ◌||◌, List, [], ◌∷◌, ◌++◌, map, Option, none, some,
  if◌then◌else◌,
}
use sysnet_linux.Routing.Config.{Config}
use sysnet_linux.Routing.Manager.Steps.{each_join}

-- The operations that closing uses, and which parts the System has.
pub record Parts : Type 1 where
  pub State : Type 0
  pub Failure : Type 0
  pub Server : Type 0
  pub Device : Type 0
  pub Resolver : Type 0
  pub has_tracker : Bool
  pub has_dns_provider : Bool
  pub has_interface_index : Bool
  pub has_routing : Bool
  pub has_connmark : Bool
  pub has_killswitch : Bool
  pub has_pmark : Bool
  pub unregister_rule : ℕ → State → State
  pub detach : Server → State → State
  pub attach : Server → Resolver → State → State
  pub close_server : Server → State → Option Failure × State
  pub unset_dns : State → Option Failure × State
  pub clear_interface_index : State → Option Failure × State
  pub rollback_routing : Config → State → Option Failure × State
  pub rollback_connmark : State → Option Failure × State
  pub delete_tmp_ruleset : ℕ → State → Option Failure × State
  pub clear_checker : State → Option Failure × State
  pub close_device : Device → State → Option Failure × State
  -- The callback DefaultTunClosed, if it is set.
  pub default_tun_closed : State → State

-- What closing does to one part.
pub data Action (V D : Type 0) : Type 0 where
  unregister_rule : ℕ → Action V D
  close_server : V → Action V D
  unset_dns clear_dns_interface rollback_connmark clear_checker : Action V D
  rollback_routing : Config → Action V D
  delete_tmp_ruleset : ℕ → Action V D
  close_device : D → Action V D

abbrev pub when {ℓ} : {A : Type ℓ} → Bool → A → List A
when b a = if b then a ∷ [] else []

abbrev pub optional {ℓ κ} : {A : Type ℓ} {B : Type κ} → (A → B) → Option A → List B
optional f none = []
optional f (some a) = f a ∷ []

abbrev pub flatten {ℓ} : {A : Type ℓ} → List (List A) → List A
flatten [] = []
flatten (xs ∷ xss) = xs ++ flatten xss

module _ (p : Parts) where
  open p use {State, Failure, Server, Device, Resolver}

  -- The fields of defaultTunState that closing and SetDNS use.
  pub record Held : Type 0 where
    pub device : Option Device
    pub server : Option Server
    pub resolver : Option Resolver
    pub routing_config : Option Config
    pub rule_ids : List ℕ
    pub killswitch_id : ℕ
    pub pmark_checker : Bool
    pub dns_ifidx_set : Bool
    pub connmark_set : Bool

  -- The System as far as it is about the TUN: whether it is closed, and whether the TUN is active.
  pub record DefaultTun : Type 0 where
    pub system_closed : Bool
    pub is_active : Bool
    pub held : Held

  abbrev pub PartAction : Type 0
  PartAction = Action Server Device

  unfoldable pub perform : PartAction → State → Option Failure × State
  perform (unregister_rule id) s = (none, p.unregister_rule id s)
  perform (close_server v) s = p.close_server v (p.detach v s)
  perform unset_dns s = p.unset_dns s
  perform clear_dns_interface s =
      if not p.has_interface_index then (none, s) else p.clear_interface_index s
  perform (rollback_routing c) s = p.rollback_routing c s
  perform rollback_connmark s = p.rollback_connmark s
  perform (delete_tmp_ruleset id) s = p.delete_tmp_ruleset id s
  perform clear_checker s = p.clear_checker s
  perform (close_device t) s = p.close_device t s

  -- unregisterRulesLocked.
  abbrev pub unregister_rules : List ℕ → List PartAction
  unregister_rules ids = if p.has_tracker then map Action.unregister_rule ids else []

  -- The tests of closeActive, in their order.
  unfoldable pub teardown : Held → List (List PartAction)
  teardown d =
      unregister_rules d.rule_ids
      ∷ optional Action.close_server d.server
      ∷ when p.has_dns_provider Action.unset_dns
      ∷ when d.dns_ifidx_set Action.clear_dns_interface
      ∷ (if p.has_routing then optional Action.rollback_routing d.routing_config else [])
      ∷ when (d.connmark_set && p.has_connmark) Action.rollback_connmark
      ∷ when (not (d.killswitch_id == 0) && p.has_killswitch)
          (Action.delete_tmp_ruleset d.killswitch_id)
      ∷ when (d.pmark_checker && p.has_pmark) Action.clear_checker
      ∷ optional Action.close_device d.device
      ∷ []

  abbrev pub nothing_held : Held
  nothing_held = record {
    device = none;
    server = none;
    resolver = none;
    routing_config = none;
    rule_ids = [];
    killswitch_id = 0;
    pmark_checker = false;
    dns_ifidx_set = false;
    connmark_set = false;
  }

  unfoldable pub close_active : Held → State → List Failure × Held × State
  close_active d s =
      let (es, s') = each_join perform (flatten (teardown d)) s in (es, nothing_held, s')

  unfoldable pub close : DefaultTun → State → List Failure × DefaultTun × State
  close x s =
      if not x.is_active
      then ([], x, s)
      else (let (es, d, s') = close_active x.held s in
          (es, record x { is_active = false; held = d }, p.default_tun_closed s'))

  -- SetDNS; true is ErrUnknownTun.
  abbrev pub switch_dns :
      DefaultTun → Option Resolver → Option Server → State → Bool × DefaultTun × State
  switch_dns x r none s = (true, x, s)
  switch_dns x none (some v) s =
      (false, record x { held = record x.held { resolver = none } }, p.detach v s)
  switch_dns x (some r) (some v) s =
      (false, record x { held = record x.held { resolver = some r } }, p.attach v r s)

  unfoldable pub set_dns : Option Resolver → DefaultTun → State → Bool × DefaultTun × State
  set_dns r x s =
      if not (not x.system_closed && x.is_active)
      then (true, x, s)
      else switch_dns x r x.held.server s
