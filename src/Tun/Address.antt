-- ===== src/Tun/Address.antt =====
-- tun/address_linux.go: the addresses of a TUN are read, a plan of changes is made, applied in order,
-- and verified against a second reading. A map by prefix or by address is a search of the list, and
-- a listed address goes by its index.
pub mod Apply
pub mod Status
pub mod Loops
pub mod Normalized
pub mod Reached
pub mod Quiet
pub mod Settled
pub mod Fades
pub mod Cleared
pub mod Reconciled
pub mod Verified
mod Examples
use sysnet_linux.Base.{
  ℕ, suc, ◌+◌, ◌==◌, Bool, true, false, not, ◌&&◌, ◌||◌, List, [], ◌∷◌, ◌++◌, map, Option, none,
  some, Result, ok, err, and_then, any, keep_if, bit_and, if◌then◌else◌,
}
use sysnet_linux.Net.Addr.{Addr, is6, addr_eq}
use sysnet_linux.Net.Prefix.{Prefix, is_valid, bits, prefix_eq, zero_prefix}
use sysnet_linux.Tun.Prefixes.{
  NetlinkAddr, nodad, unusable_ipv6_addr_flags, netlink_addr_from_prefix, tun_addr_prefix,
}

-- tunAddrNetlink, for one link.
pub record TunAddrNetlink : Type 1 where
  pub State : Type 0
  pub Failure : Type 0
  pub list : State → Result Failure (List NetlinkAddr) × State
  pub replace : NetlinkAddr → State → Option Failure × State
  pub delete : NetlinkAddr → State → Option Failure × State

-- The errors of the plan, and all errors.
pub data PlanError : Type 0 where
  invalid_prefix : Prefix → PlanError
  conflicting_lengths : Addr → ℕ → ℕ → PlanError

pub data AddressError (E : Type 0) : Type 0 where
  not_planned : PlanError → AddressError E
  list_failed verify_failed : E → AddressError E
  replace_failed : Prefix → E → AddressError E
  delete_failed : NetlinkAddr → E → AddressError E
  absent without_nodad unusable : Prefix → AddressError E
  unknown_kind : ℕ → AddressError E

-- tunAddrChangeKind, a uint8.
pub data ChangeKind : Type 0 where
  tun_addr_replace tun_addr_delete : ChangeKind
  other_kind : ℕ → ChangeKind

pub record Change : Type 0 where
  pub kind : ChangeKind
  pub addr : NetlinkAddr
  pub prefix : Prefix

-- The length that a map from addresses to lengths has for an address; newest entry first.
abbrev pub length_of : Addr → List (Addr × ℕ) → Option ℕ
length_of a [] = none
length_of a ((b, n) ∷ es) = let rest = length_of a es in if addr_eq a b then some n else rest

abbrev pub is_unusable : NetlinkAddr → Bool
is_unusable a = not (bit_and a.flags unusable_ipv6_addr_flags == 0)

abbrev pub has_nodad : NetlinkAddr → Bool
has_nodad a = not (bit_and a.flags nodad == 0)

abbrev pub is_among : Prefix → List Prefix → Bool
is_among p = any (prefix_eq p)

-- A listed address with its index and its prefix, which tunAddrPrefix may refuse.
pub record Listed : Type 0 where
  pub index : ℕ
  pub addr : NetlinkAddr
  pub prefix : Option Prefix

unfoldable pub listed_from : ℕ → List NetlinkAddr → List Listed
listed_from i [] = []
listed_from i (a ∷ as_) =
    record { index = i; addr = a; prefix = tun_addr_prefix a } ∷ listed_from (suc i) as_

abbrev pub has_prefix : Prefix → Option Prefix → Bool
has_prefix p none = false
has_prefix p (some q) = prefix_eq p q

abbrev pub has_address : Addr → Option Prefix → Bool
has_address a none = false
has_address a (some q) = addr_eq a q.addr

-- currentByPrefix, which keeps the first index of a prefix.
unfoldable pub by_prefix : Prefix → List Listed → Option Listed
by_prefix p [] = none
by_prefix p (e ∷ es) = let rest = by_prefix p es in if has_prefix p e.prefix then some e else rest

-- currentByIP.
abbrev pub by_address : Addr → List Listed → List Listed
by_address a = keep_if (λ e. has_address a e.prefix)

-- The variables that the loops of planTunAddrReconciliation change.
pub record Plan : Type 0 where
  pub changes : List Change
  pub deleted : List ℕ

abbrev pub is_deleted : Listed → Plan → Bool
is_deleted e plan = any (λ i. i == e.index) plan.deleted

unfoldable pub delete_tun_addr_change : NetlinkAddr → Change
delete_tun_addr_change a = record {
  kind = ChangeKind.tun_addr_delete;
  addr = a;
  prefix = elim (tun_addr_prefix a) [ some p ↦ p | none ↦ zero_prefix ];
}

unfoldable pub delete_listed : Listed → Plan → Plan
delete_listed e plan = record {
  changes = plan.changes ++ delete_tun_addr_change e.addr ∷ [];
  deleted = e.index ∷ plan.deleted;
}

-- normalizeTunAddrPrefixSet, from the loop's variables.
abbrev pub conflict : Prefix → Option ℕ → Option PlanError
conflict p none = none
conflict p (some n) =
    if not (n == bits p) then some (conflicting_lengths p.addr n (bits p)) else none

abbrev pub put_unless_seen :
    Bool → Prefix → Result PlanError (List Prefix) → Result PlanError (List Prefix)
put_unless_seen true p r = r
put_unless_seen false p (err e) = err e
put_unless_seen false p (ok ps) = ok (p ∷ ps)

abbrev pub unless_conflict :
    Option PlanError → Result PlanError (List Prefix) → Result PlanError (List Prefix)
unless_conflict (some e) r = err e
unless_conflict none r = r

unfoldable pub normalize_set_from :
    List (Addr × ℕ) → List Prefix → List Prefix → Result PlanError (List Prefix)
normalize_set_from lengths seen [] = ok []
normalize_set_from lengths seen (p ∷ ps) =
    let is_seen = is_among p seen in
    let rest =
      normalize_set_from ((p.addr, bits p) ∷ lengths) (if is_seen then seen else p ∷ seen) ps in
    if not (is_valid p)
    then err (invalid_prefix p)
    else unless_conflict (conflict p (length_of p.addr lengths)) (put_unless_seen is_seen p rest)

unfoldable pub normalize_tun_addr_prefix_set : List Prefix → Result PlanError (List Prefix)
normalize_tun_addr_prefix_set = normalize_set_from [] []

-- replaceTunAddrChange.
abbrev pub replace_of : Prefix → Option NetlinkAddr → Result PlanError Change
replace_of p none = err (invalid_prefix p)
replace_of p (some a) = ok (record { kind = ChangeKind.tun_addr_replace; addr = a; prefix = p })

unfoldable pub replace_tun_addr_change : Prefix → Result PlanError Change
replace_tun_addr_change p = replace_of p (netlink_addr_from_prefix p)

abbrev pub PlanResult : Type 0
PlanResult = Result PlanError Plan

abbrev pub append_change : Plan → Change → PlanResult
append_change plan c = ok (record plan { changes = plan.changes ++ c ∷ [] })

unfoldable pub append_replace : Prefix → Plan → PlanResult
append_replace p plan = and_then (replace_tun_addr_change p) (append_change plan)

-- A loop over the desired prefixes, or over listed addresses.
abbrev pub each_in_plan : {A : Type 0} → (A → Plan → PlanResult) → List A → Plan → PlanResult
each_in_plan f [] plan = ok plan
each_in_plan f (p ∷ ps) plan = and_then (f p plan) (each_in_plan f ps)

-- The five loops of planTunAddrReconciliation, in their order.
abbrev pub set_nodad_of : Prefix → Option Listed → Plan → PlanResult
set_nodad_of p none plan = ok plan
set_nodad_of p (some e) plan =
    if not (is6 p.addr) || (is_unusable e.addr || has_nodad e.addr)
    then ok plan
    else append_replace p plan

abbrev pub add_new_of : Prefix → Option Listed → List Listed → Plan → PlanResult
add_new_of p (some e) conflicts plan = ok plan
add_new_of p none (c ∷ cs) plan = ok plan
add_new_of p none [] plan = append_replace p plan

abbrev pub renew_unusable_of : Prefix → Option Listed → Plan → PlanResult
renew_unusable_of p none plan = ok plan
renew_unusable_of p (some e) plan =
    if not (is6 p.addr) || not (is_unusable e.addr)
    then ok plan
    else append_replace p (delete_listed e plan)

abbrev pub delete_unless_deleted : Listed → Plan → Plan
delete_unless_deleted e plan = if is_deleted e plan then plan else delete_listed e plan

abbrev pub delete_all : List Listed → Plan → Plan
delete_all [] plan = plan
delete_all (e ∷ es) plan = delete_all es (delete_unless_deleted e plan)

abbrev pub replace_conflicts_of : Prefix → Option Listed → List Listed → Plan → PlanResult
replace_conflicts_of p (some e) conflicts plan = ok plan
replace_conflicts_of p none [] plan = ok plan
replace_conflicts_of p none (c ∷ cs) plan = append_replace p (delete_all (c ∷ cs) plan)

abbrev pub is_retained : List Prefix → Option Prefix → Bool
is_retained desired none = false
is_retained desired (some p) = is_among p desired

unfoldable pub delete_undesired : List Prefix → Listed → Plan → PlanResult
delete_undesired desired e plan =
    if is_retained desired e.prefix || is_deleted e plan then ok plan else ok (delete_listed e plan)

module _ (current : List Listed) where
  unfoldable pub set_nodad : Prefix → Plan → PlanResult
  set_nodad p = set_nodad_of p (by_prefix p current)

  unfoldable pub add_new : Prefix → Plan → PlanResult
  add_new p = add_new_of p (by_prefix p current) (by_address p.addr current)

  unfoldable pub renew_unusable : Prefix → Plan → PlanResult
  renew_unusable p = renew_unusable_of p (by_prefix p current)

  unfoldable pub replace_conflicts : Prefix → Plan → PlanResult
  replace_conflicts p = replace_conflicts_of p (by_prefix p current) (by_address p.addr current)

  unfoldable pub plan_changes : List Prefix → PlanResult
  plan_changes desired =
      and_then (each_in_plan set_nodad desired (record { changes = []; deleted = [] })) (λ p1.
        and_then (each_in_plan add_new desired p1) (λ p2.
          and_then (each_in_plan renew_unusable desired p2) (λ p3.
            and_then (each_in_plan replace_conflicts desired p3)
              (each_in_plan (delete_undesired desired) current))))

abbrev pub changes_of : PlanResult → Result PlanError (List Change)
changes_of (err e) = err e
changes_of (ok plan) = ok plan.changes

unfoldable pub plan_tun_addr_reconciliation :
    List NetlinkAddr → List Prefix → Result PlanError (List Change)
plan_tun_addr_reconciliation current desired =
    and_then (normalize_tun_addr_prefix_set desired)
      (λ ps. changes_of (plan_changes (listed_from 0 current) ps))
