-- ===== src/Killswitch/Session/Synced.antt =====
-- No change is lost: when the loop waits with nothing to wake it, the daemon holds what the client
-- wants.
use Prim.Native.String.{String}
use sysnet_linux.Base.{
  ℕ, ◌+◌, ◌%◌, ◌^◌, ◌≤◌, ◌<◌, ◌==◌, ==_iff, ◌≡◌, refl, ◌≢◌, ◌⊎◌, inl, inr, true, false, List,
  Option, some, arith, suc, Bool-cases, Option-cases,
}
use sysnet_linux.Killswitch.Rules.{AllowRules, MergedRuleset, merge_tmp_rulesets}
use sysnet_linux.Killswitch.Client.{
  Client, find, create_tmp_ruleset, update_tmp_ruleset, delete_tmp_ruleset, close, snapshot,
  set_interfaces, changed_locked,
}
use sysnet_linux.Killswitch.Session.{
  System, Phase, disconnected, polling, writing, waiting, stopped, Message, handle_message, start,
  connect, poll, write, with_client, after_snapshot, Step, Run,
}

-- What the daemon should hold for a client.
abbrev pub wanted : Client → Option MergedRuleset
wanted c = merge_tmp_rulesets c.rulesets c.interface_names

record IsSynced (n : ℕ) (s : System) : Type 0 where
  bounded : s.client.version ≤ n
  applied : s.applied_version ≤ s.client.version
  write_current :
      (v : ℕ) (m : Option MergedRuleset)
      → s.phase ≡ writing v m
      → (v ≤ s.client.version)
        × (v ≡ s.client.version → s.client.interfaces_known ≡ true → m ≡ wanted s.client)
        × (v ≢ s.client.version → s.client.wake ≡ true)
  sent_current :
      s.client.interfaces_known ≡ true
      → s.applied_version ≡ s.client.version
      → s.sent ≡ some (wanted s.client)
  wakeful :
      s.phase ≡ waiting
      → s.client.closed ≡ false
      → s.client.interfaces_known ≡ true
      → s.applied_version ≢ s.client.version
      → s.client.wake ≡ true

-- How an operation may change a client: not at all, to a new version with a wake-up, or by closing.
abbrev Advances : Client → Client → Type 0
Advances c d =
    (d ≡ c)
    ⊎ ((d.version ≡ (c.version + 1) % 2 ^ 64) × (d.wake ≡ true))
    ⊎ ((d.closed ≡ true)
        × (d.wake ≡ true)
        × (d.version ≡ c.version)
        × (d.interfaces_known ≡ c.interfaces_known)
        × (wanted d ≡ wanted c))

advance-IsSynced :
    (n : ℕ) (s : System) (d : Client)
    → n + 1 < 2 ^ 64
    → Advances s.client d
    → IsSynced n s
    → IsSynced (suc n) (with_client d s)
unfolding with_client
advance-IsSynced n s d b (inl e) i = record {
  bounded = rw e (omega (arith, i.bounded));
  applied = rw e i.applied;
  write_current = rw e i.write_current;
  sent_current = rw e i.sent_current;
  wakeful = rw e i.wakeful;
}
advance-IsSynced n s d b (inr (inl (e, w))) i = record {
  bounded = ground (arith, i.bounded);
  applied = ground (arith, i.bounded, i.applied);
  write_current = λ v m p. ground (arith, i.bounded, i.write_current v m p);
  sent_current = ground (arith, i.bounded, i.applied);
  wakeful = λ p o k a. w;
}
advance-IsSynced n s d b (inr (inr (c, w, v, k, m))) i = record {
  bounded = omega (arith, i.bounded, v);
  applied = rw v i.applied;
  write_current = λ u x p. ground (arith, i.write_current u x p);
  sent_current = rw (v, k, m) i.sent_current;
  wakeful = λ p o k a. absurd (ground arith);
}

creates-Advances : (rules : AllowRules) (c : Client) → Advances c (create_tmp_ruleset rules c).1
unfolding create_tmp_ruleset changed_locked
creates-Advances rules c = ground arith

updates-Advances :
    (id : ℕ) (rules : AllowRules) (c : Client) → Advances c (update_tmp_ruleset id rules c).1
unfolding update_tmp_ruleset changed_locked
updates-Advances id rules c = ground (arith, Option-cases (find id c.rulesets))

deletes-Advances : (id : ℕ) (c : Client) → Advances c (delete_tmp_ruleset id c).1
unfolding delete_tmp_ruleset changed_locked
deletes-Advances id c = ground (arith, Option-cases (find id c.rulesets))

closes-Advances : (c : Client) → Advances c (close c)
unfolding close
closes-Advances c = ground arith

set_interfaces-Advances : (names : List String) (c : Client) → Advances c (set_interfaces names c)
unfolding set_interfaces changed_locked
set_interfaces-Advances names c = ground arith

reads-Advances : (m : Message) (c : Client) → Advances c (handle_message m c)
unfolding handle_message
reads-Advances (Message.config names) c = set_interfaces-Advances names c
reads-Advances (Message.interfaces_event names) c = set_interfaces-Advances names c
reads-Advances (Message.other_event _) c = inl refl
reads-Advances (Message.mutation_result _) c = inl refl
reads-Advances Message.undecoded c = inl refl
reads-Advances Message.other_message c = inl refl

start-IsSynced : IsSynced 0 start
start-IsSynced = record {
  bounded = omega arith;
  applied = omega arith;
  write_current = λ v m p. ground arith;
  sent_current = λ k a. absurd (ground arith);
  wakeful = λ p o k a. absurd (ground arith);
}

connect-IsSynced :
    (n : ℕ) (s : System) → n + 1 < 2 ^ 64 → IsSynced n s → IsSynced (suc n) (connect s)
unfolding connect changed_locked
connect-IsSynced n s b i = record {
  bounded = ground (arith, i.bounded);
  applied = ground (arith, i.bounded);
  write_current = λ v m p. ground arith;
  sent_current = λ k a. absurd (ground arith);
  wakeful = λ p o k a. absurd (ground arith);
}

poll-IsSynced : (n : ℕ) (s : System) → IsSynced n s → IsSynced (suc n) (poll s)
unfolding poll after_snapshot snapshot
poll-IsSynced n s i = record {
  bounded = omega (arith, i.bounded);
  applied = i.applied;
  write_current = λ v m p. ground arith;
  sent_current = i.sent_current;
  wakeful = λ p o k a. ground arith;
}

write-IsSynced :
    (n v : ℕ) (m : Option MergedRuleset) (s : System)
    → s.phase ≡ writing v m
    → IsSynced n s
    → IsSynced (suc n) (write v m s)
unfolding write
write-IsSynced n v m s p i = record {
  bounded = omega (arith, i.bounded);
  applied = (i.write_current v m p).0;
  write_current = λ w k q. absurd (ground arith);
  sent_current = λ k a. ground (arith, (i.write_current v m p).1 a k);
  wakeful = λ q o k a. (i.write_current v m p).2 a;
}

lose-IsSynced :
    (n : ℕ) (s : System) (p : Phase)
    → p ≢ waiting
    → ((v : ℕ) (m : Option MergedRuleset) → p ≢ writing v m)
    → IsSynced n s
    → IsSynced (suc n) (record s { phase = p })
lose-IsSynced n s p w x i = record {
  bounded = omega (arith, i.bounded);
  applied = i.applied;
  write_current = λ v m q. absurd (x v m q);
  sent_current = i.sent_current;
  wakeful = λ q o k a. absurd (w q);
}

wake-IsSynced :
    (n : ℕ) (s : System)
    → IsSynced n s
    → IsSynced (suc n) (record s { client = record s.client { wake = false }; phase = polling })
wake-IsSynced n s i = record {
  bounded = omega (arith, i.bounded);
  applied = i.applied;
  write_current = λ v m q. absurd (ground arith);
  sent_current = i.sent_current;
  wakeful = λ q o k a. absurd (ground arith);
}

step-IsSynced :
    {n : ℕ} {s t : System} → n + 1 < 2 ^ 64 → Step s t → IsSynced n s → IsSynced (suc n) t
step-IsSynced {n} b (Step.creates rules s) i =
    advance-IsSynced n s _ b (creates-Advances rules s.client) i
step-IsSynced {n} b (Step.updates id rules s) i =
    advance-IsSynced n s _ b (updates-Advances id rules s.client) i
step-IsSynced {n} b (Step.deletes id s) i =
    advance-IsSynced n s _ b (deletes-Advances id s.client) i
step-IsSynced {n} b (Step.closes s) i = advance-IsSynced n s _ b (closes-Advances s.client) i
step-IsSynced {n} b (Step.reads m s) i = advance-IsSynced n s _ b (reads-Advances m s.client) i
step-IsSynced {n} b (Step.connects s p) i = connect-IsSynced n s b i
step-IsSynced {n} b (Step.polls s p) i = poll-IsSynced n s i
step-IsSynced {n} b (Step.writes v m s p) i = write-IsSynced n v m s p i
step-IsSynced {n} b (Step.loses s p) i =
    lose-IsSynced n s disconnected (λ e. ground arith) (λ v m e. ground arith) i
step-IsSynced {n} b (Step.wakes s p w) i = wake-IsSynced n s i
step-IsSynced {n} b (Step.stops s p c) i =
    lose-IsSynced n s stopped (λ e. ground arith) (λ v m e. ground arith) i

Run-IsSynced : {n : ℕ} {s : System} → Run n s → n < 2 ^ 64 → IsSynced n s
Run-IsSynced Run.starts b = start-IsSynced
Run-IsSynced (Run.follows r t) b = step-IsSynced (omega arith) t (Run-IsSynced r (omega arith))

-- In every execution of fewer than 2 ^ 64 steps, however the callers, the reader and the loop
-- interleave: when the loop waits and nothing wakes it, the client is open and the interfaces are
-- known, what the session sent last is the merge of the client's rulesets on its interfaces.
pub Run-quiescent :
    {n : ℕ} {s : System}
    → Run n s
    → n < 2 ^ 64
    → s.phase ≡ waiting
    → s.client.wake ≡ false
    → s.client.closed ≡ false
    → s.client.interfaces_known ≡ true
    → s.sent ≡ some (merge_tmp_rulesets s.client.rulesets s.client.interface_names)
Run-quiescent {n} {s} r b p w o k = elim (Bool-cases (s.applied_version == s.client.version)) [
  | inl e ↦ (Run-IsSynced r b).sent_current k ((==_iff _ _).0 e)
  | inr e ↦ absurd (ground (arith, (Run-IsSynced r b).wakeful p o k))
]
