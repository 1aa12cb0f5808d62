-- ===== src/System/Closing/Examples.antt =====
-- A default TUN on a host in memory whose nftables connection fails.
use mathlib.Core.List.{Memᴰ}
use sysnet_linux.Base.{ℕ, ◌≡◌, refl, true, false, List, [], ◌∷◌, Option, none, some, arith}
use sysnet_linux.Routing.Config.{default_config}
use sysnet_linux.System.Closing.{
  Parts, Action, PartAction, Held, DefaultTun, perform, close, set_dns,
}
use sysnet_linux.System.Closing.Released.{Holds, IsSettled, ReleaseLaws, close-IsSettled}

abbrev Done : Type 0
Done = Action ℕ ℕ

abbrev done : Done → List Done → Option Done × List Done
done a s = (none, a ∷ s)

-- The state is what was done, and only the rollback of the nftables rules fails.
abbrev memory : Parts
memory = record {
  State = List Done;
  Failure = Done;
  Server = ℕ;
  Device = ℕ;
  Resolver = ℕ;
  has_tracker = true;
  has_dns_provider = true;
  has_interface_index = true;
  has_routing = true;
  has_connmark = true;
  has_killswitch = true;
  has_pmark = true;
  unregister_rule = λ id s. Action.unregister_rule id ∷ s;
  detach = λ v s. s;
  attach = λ v r s. s;
  close_server = λ v. done (Action.close_server v);
  unset_dns = done Action.unset_dns;
  clear_interface_index = done Action.clear_dns_interface;
  rollback_routing = λ c. done (Action.rollback_routing c);
  rollback_connmark = λ s. (some Action.rollback_connmark, s);
  delete_tmp_ruleset = λ id. done (Action.delete_tmp_ruleset id);
  clear_checker = done Action.clear_checker;
  close_device = λ t. done (Action.close_device t);
  default_tun_closed = λ s. s;
}

abbrev WasDone : PartAction memory → List Done → Type 0
WasDone a s = Memᴰ a s

abbrev IsAbout : PartAction memory → Done → Type 0
IsAbout a e = a ≡ e

done-WasDone :
    (a : Done) (s : List Done) → (perform memory a s).0 ≡ none → WasDone a (perform memory a s).1
unfolding perform
done-WasDone (Action.unregister_rule id) s e = Memᴰ.head refl
done-WasDone (Action.close_server v) s e = Memᴰ.head refl
done-WasDone Action.unset_dns s e = Memᴰ.head refl
done-WasDone Action.clear_dns_interface s e = Memᴰ.head refl
done-WasDone Action.rollback_connmark s e = ground arith
done-WasDone Action.clear_checker s e = Memᴰ.head refl
done-WasDone (Action.rollback_routing c) s e = Memᴰ.head refl
done-WasDone (Action.delete_tmp_ruleset id) s e = Memᴰ.head refl
done-WasDone (Action.close_device t) s e = Memᴰ.head refl

blames-IsAbout :
    (a : Done) (s : List Done) (e : Done) → (perform memory a s).0 ≡ some e → IsAbout a e
unfolding perform
blames-IsAbout (Action.unregister_rule id) s e h = ground arith
blames-IsAbout (Action.close_server v) s e h = ground arith
blames-IsAbout Action.unset_dns s e h = ground arith
blames-IsAbout Action.clear_dns_interface s e h = ground arith
blames-IsAbout Action.rollback_connmark s e h = ground arith
blames-IsAbout Action.clear_checker s e h = ground arith
blames-IsAbout (Action.rollback_routing c) s e h = ground arith
blames-IsAbout (Action.delete_tmp_ruleset id) s e h = ground arith
blames-IsAbout (Action.close_device t) s e h = ground arith

stays_done : (a b : Done) (s : List Done) → WasDone b s → WasDone b (perform memory a s).1
unfolding perform
stays_done (Action.unregister_rule id) b s m = Memᴰ.tail m
stays_done (Action.close_server v) b s m = Memᴰ.tail m
stays_done Action.unset_dns b s m = Memᴰ.tail m
stays_done Action.clear_dns_interface b s m = Memᴰ.tail m
stays_done Action.rollback_connmark b s m = m
stays_done Action.clear_checker b s m = Memᴰ.tail m
stays_done (Action.rollback_routing c) b s m = Memᴰ.tail m
stays_done (Action.delete_tmp_ruleset id) b s m = Memᴰ.tail m
stays_done (Action.close_device t) b s m = Memᴰ.tail m

memory_laws : ReleaseLaws memory WasDone IsAbout
memory_laws = record {
  releases = done-WasDone;
  blames = blames-IsAbout;
  keeps = stays_done;
  callback_keeps = λ b s m. m;
}

abbrev held : Held memory
held = record {
  device = some 3;
  server = some 1;
  resolver = some 8;
  routing_config = some default_config;
  rule_ids = 4 ∷ 5 ∷ [];
  killswitch_id = 2;
  pmark_checker = true;
  dns_ifidx_set = true;
  connmark_set = true;
}

abbrev tun : DefaultTun memory
tun = record { system_closed = false; is_active = true; held = held }

close-IsSettled_example :
    ((a : PartAction memory)
      → Holds memory a held
      → IsSettled memory WasDone IsAbout a ((close memory tun []).0, (close memory tun []).2))
    × (close memory (close memory tun []).1 (close memory tun []).2
        ≡ ([], (close memory tun []).1, (close memory tun []).2))
    × ((r : Option ℕ)
        → set_dns memory r (close memory tun []).1 (close memory tun []).2
          ≡ (true, (close memory tun []).1, (close memory tun []).2))
close-IsSettled_example = close-IsSettled memory WasDone IsAbout memory_laws tun [] refl
