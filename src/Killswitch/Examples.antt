-- ===== src/Killswitch/Examples.antt =====
-- The theorems on the kill switch client, used at concrete clients and at one execution.
use mathlib.Core.List.{Memᴰ}
use sysnet_linux.Base.{◌<◌, ◌^◌, All, ◌≡◌, refl, ◌↔◌, true, false, List, [], ◌∷◌, some, ok, arith}
use sysnet_linux.Killswitch.Rules.{AllowRules, Entry, no_rules, merged_policy, merge_tmp_rulesets}
use sysnet_linux.Killswitch.Rules.Merged.{port, entries, IsGranted, merged_policy-mem}
use sysnet_linux.Killswitch.Client.{Client, new_client, create_tmp_ruleset, delete_tmp_ruleset}
use sysnet_linux.Killswitch.Client.Calls.{
  Call, create, update, delete_it, answer, after, after_all, given_ids, IsIncreasing, Follows,
  rulesets-IsMap,
}
use sysnet_linux.Killswitch.Session.{
  System, waiting, polling, Message, handle_message, start, connect, poll, write, with_client, Step,
  Run,
}
use sysnet_linux.Killswitch.Session.Synced.{Run-quiescent}

abbrev web : AllowRules
web = record no_rules { allowed_ports = "tcp/443" ∷ []; allowed_marks = "0x8000" ∷ [] }

abbrev dns : AllowRules
dns = record no_rules { allowed_ports = "udp/53" ∷ "tcp/443" ∷ []; enable_v4 = true }

abbrev both : List Entry
both = record { id = 2; rules = dns } ∷ record { id = 1; rules = web } ∷ []

abbrev client : Client
client = record new_client { next_ruleset_id = 2; rulesets = both }

merged_policy-mem_example :
    Memᴰ "udp/53" (entries port (merged_policy both)) ↔ IsGranted port "udp/53" both
merged_policy-mem_example = merged_policy-mem port "udp/53" both

-- Two rulesets are created and the first is deleted.
abbrev calls : List Call
calls = create web ∷ create dns ∷ delete_it 1 ∷ []

two_given : given_ids calls new_client ≡ 1 ∷ 2 ∷ []
unfolding create_tmp_ruleset delete_tmp_ruleset
two_given = refl

abbrev last_client : Client
last_client = after_all calls new_client

rulesets-IsMap_example :
    All (λ i. (0 < i) × (i < 2 ^ 64)) (given_ids calls new_client)
    × IsIncreasing (given_ids calls new_client)
    × Follows
        (update 2 web)
        last_client
        (answer (update 2 web) last_client)
        (after (update 2 web) last_client)
rulesets-IsMap_example = rulesets-IsMap calls (update 2 web)

created : (create_tmp_ruleset web client).0 ≡ ok 3
unfolding create_tmp_ruleset
created = refl

-- An execution: the client connects, learns of an interface, is given a ruleset, and sends it.
abbrev connected : System
connected = connect start

abbrev informed : System
informed = with_client (handle_message (Message.config ("eth0" ∷ [])) connected.client) connected

abbrev ruled : System
ruled = with_client (create_tmp_ruleset web informed.client).1 informed

abbrev polled : System
polled = poll ruled

abbrev written : System
written =
    write polled.client.version
      (merge_tmp_rulesets polled.client.rulesets polled.client.interface_names) polled

abbrev woken : System
woken = record written { client = record written.client { wake = false }; phase = polling }

abbrev settled : System
settled = poll woken

execution : Run 7 settled
unfolding connect poll write with_client create_tmp_ruleset handle_message
execution =
    Run.follows
      (Run.follows
        (Run.follows
          (Run.follows
            (Run.follows
              (Run.follows (Run.follows Run.starts (Step.connects start refl))
                (Step.reads (Message.config ("eth0" ∷ [])) connected))
              (Step.creates web informed))
            (Step.polls ruled refl))
          (Step.writes _ _ polled refl))
        (Step.wakes written refl refl))
      (Step.polls woken refl)

settled_waits : settled.phase ≡ waiting
unfolding connect poll write with_client create_tmp_ruleset handle_message
settled_waits = refl

settled_known : settled.client.interfaces_known ≡ true
unfolding connect poll write with_client create_tmp_ruleset handle_message
settled_known = refl

settled_open : settled.client.closed ≡ false
unfolding connect poll write with_client create_tmp_ruleset handle_message
settled_open = refl

settled_asleep : settled.client.wake ≡ false
unfolding connect poll write with_client create_tmp_ruleset handle_message
settled_asleep = refl

Run-quiescent_example :
    settled.sent ≡ some (merge_tmp_rulesets settled.client.rulesets settled.client.interface_names)
Run-quiescent_example =
    Run-quiescent execution (omega arith) settled_waits settled_asleep settled_open settled_known
