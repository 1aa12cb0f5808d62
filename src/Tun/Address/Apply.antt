-- ===== src/Tun/Address/Apply.antt =====
-- tun/address_linux.go: the plan for one more address, the changes applied and verified, and the two
-- operations.
use sysnet_linux.Base.{
  not, ◌&&◌, List, [], ◌∷◌, ◌++◌, map, Option, none, some, Result, ok, err, and_then, if◌then◌else◌,
}
use sysnet_linux.Net.Addr.{is6}
use sysnet_linux.Net.Prefix.{Prefix, is_valid}
use sysnet_linux.Tun.Prefixes.{NetlinkAddr, tun_addr_prefix}
use sysnet_linux.Tun.Address.{
  TunAddrNetlink, AddressError, PlanError, ChangeKind, Change, is_unusable, has_nodad, has_prefix,
  replace_tun_addr_change, delete_tun_addr_change, normalize_tun_addr_prefix_set,
  plan_tun_addr_reconciliation, has_address,
}

abbrev pub one_change : List Change → Change → Result PlanError (List Change)
one_change before c = ok (before ++ c ∷ [])

-- planExistingIPv6AddrAddition.
unfoldable pub plan_existing_ipv6_addr_addition :
    NetlinkAddr → Prefix → Result PlanError (List Change)
plan_existing_ipv6_addr_addition a p =
    if has_nodad a && not (is_unusable a)
    then ok []
    else and_then (replace_tun_addr_change p)
        (one_change (if not (is_unusable a) then [] else delete_tun_addr_change a ∷ []))

-- The loop of planTunAddrAddition, which has the conflicts so far, and what follows it.
unfoldable pub add_among :
    Prefix → List NetlinkAddr → List NetlinkAddr → Result PlanError (List Change)
add_among p conflicts [] =
    and_then (replace_tun_addr_change p) (one_change (map delete_tun_addr_change conflicts))
add_among p conflicts (a ∷ as_) =
    let q = tun_addr_prefix a in
    let skipped = add_among p conflicts as_ in
    let conflicting = add_among p (conflicts ++ a ∷ []) as_ in
    if not (has_address p.addr q)
    then skipped
    else (if not (has_prefix p q) then conflicting else plan_existing_ipv6_addr_addition a p)

unfoldable pub plan_tun_addr_addition : List NetlinkAddr → Prefix → Result PlanError (List Change)
plan_tun_addr_addition current p =
    if not (is_valid p)
    then err (PlanError.invalid_prefix p)
    else (if not (is6 p.addr)
        then and_then (replace_tun_addr_change p) (one_change [])
        else add_among p [] current)

-- The last listed address of a prefix, which is the one that verifyTunAddrPrefixes keeps.
unfoldable pub last_of : Prefix → List NetlinkAddr → Option NetlinkAddr
last_of p [] = none
last_of p (a ∷ as_) = elim (last_of p as_) [
  | some b ↦ some b
  | none ↦ if has_prefix p (tun_addr_prefix a) then some a else none
]

module _ (n : TunAddrNetlink) where
  open n use {State, Failure}

  abbrev pub Failed : Type 0
  Failed = Option (AddressError Failure)

  abbrev pub verified : Prefix → Option NetlinkAddr → Failed
  verified p none = some (AddressError.absent p)
  verified p (some a) =
      if not (is6 p.addr)
      then none
      else (if not (has_nodad a)
          then some (AddressError.without_nodad p)
          else (if is_unusable a then some (AddressError.unusable p) else none))

  abbrev pub first_failure : Failed → Failed → Failed
  first_failure (some e) rest = some e
  first_failure none rest = rest

  unfoldable pub verify_listed : List NetlinkAddr → List Prefix → Failed
  verify_listed current [] = none
  verify_listed current (p ∷ ps) =
      first_failure (verified p (last_of p current)) (verify_listed current ps)

  abbrev pub verify_result :
      List Prefix → Result Failure (List NetlinkAddr) × State → Failed × State
  verify_result desired (err e, s) = (some (AddressError.verify_failed e), s)
  verify_result desired (ok current, s) = (verify_listed current desired, s)

  unfoldable pub verify_tun_addr_prefixes : List Prefix → State → Failed × State
  verify_tun_addr_prefixes desired s = verify_result desired (n.list s)

  -- applyTunAddrChanges.
  abbrev pub or_failed : (Failure → AddressError Failure) → Option Failure × State → Failed × State
  or_failed f (none, s) = (none, s)
  or_failed f (some e, s) = (some (f e), s)

  unfoldable pub apply_change : ChangeKind → Change → State → Failed × State
  apply_change ChangeKind.tun_addr_replace c s =
      or_failed (AddressError.replace_failed c.prefix) (n.replace c.addr s)
  apply_change ChangeKind.tun_addr_delete c s =
      or_failed (AddressError.delete_failed c.addr) (n.delete c.addr s)
  apply_change (ChangeKind.other_kind k) c s = (some (AddressError.unknown_kind k), s)

  unfoldable pub apply_tun_addr_changes : List Change → State → Failed × State
  apply_tun_addr_changes [] s = (none, s)
  apply_tun_addr_changes (c ∷ cs) s =
      let (e, t) = apply_change c.kind c s in
      let rest = apply_tun_addr_changes cs t in elim e [ some x ↦ (some x, t) | none ↦ rest ]

  abbrev pub then_verify : List Prefix → Failed × State → Failed × State
  then_verify desired (some e, s) = (some e, s)
  then_verify desired (none, s) = verify_tun_addr_prefixes desired s

  abbrev pub apply_planned : List Prefix → State → Result PlanError (List Change) → Failed × State
  apply_planned desired s (err e) = (some (AddressError.not_planned e), s)
  apply_planned desired s (ok cs) = then_verify desired (apply_tun_addr_changes cs s)

  -- What both operations do with the listed addresses and a way to plan.
  abbrev pub reconcile :
      List Prefix
      → (List NetlinkAddr → Result PlanError (List Change))
      → Result Failure (List NetlinkAddr) × State
      → Failed × State
  reconcile desired plan (err e, s) = (some (AddressError.list_failed e), s)
  reconcile desired plan (ok current, s) = apply_planned desired s (plan current)

  abbrev pub set_normalized : Result PlanError (List Prefix) → State → Failed × State
  set_normalized (err e) s = (some (AddressError.not_planned e), s)
  set_normalized (ok desired) s =
      reconcile desired (λ current. plan_tun_addr_reconciliation current desired) (n.list s)

  unfoldable pub set_tun_addr_prefixes : List Prefix → State → Failed × State
  set_tun_addr_prefixes prefixes s = set_normalized (normalize_tun_addr_prefix_set prefixes) s

  unfoldable pub add_tun_addr_prefix : Prefix → State → Failed × State
  add_tun_addr_prefix p s =
      if not (is_valid p)
      then (some (AddressError.not_planned (PlanError.invalid_prefix p)), s)
      else reconcile (p ∷ []) (λ current. plan_tun_addr_addition current p) (n.list s)
