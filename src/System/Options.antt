-- ===== src/System/Options.antt =====
-- sysnet.go: the normalization of the options of a default TUN; default_tun.go: the routing
-- configuration that BuildDefaultTun makes of them. Prefixes and addresses come as texts; that
-- netip parses and prints them is a parameter.
use Prim.Native.String.{String}
use text.Mathlib.Text.{◌==◌ as str_eq}
use sysnet_linux.Base.{
  ℕ, suc, ◌≡◌, Bool, true, false, not, ◌&&◌, ◌||◌, List, [], ◌∷◌, ◌++◌, Option, none, some, Result,
  ok, err, any, if◌then◌else◌,
}
use sysnet_linux.Net.Addr.{
  Addr, is_valid, is4, is6, is4in6, zone, no_zone, addr_eq, is_unspecified, is_multicast,
  is_loopback, is_global_unicast, is_link_local_unicast,
}
use sysnet_linux.Net.Prefix.{Prefix, masked, zero_prefix}
use sysnet_linux.Net.Prefix
use sysnet_linux.Routing.Model.{SourceRoute}
use sysnet_linux.Routing.Config.{FamilySet, both_families, seen_source}

-- netip.ParsePrefix, Prefix.String, netip.ParseAddr and Addr.String.
pub record PrefixText : Type 0 where
  pub parse_prefix : String → Option Prefix
  pub print_prefix : Prefix → String
  pub parse_addr : String → Option Addr
  pub print_addr : Addr → String

-- A prefix that was parsed is parsed again from its own text.
pub record PrefixTextLaws (x : PrefixText) : Type 0 where
  pub reparsed :
      (t : String) (p : Prefix)
      → x.parse_prefix t ≡ some p
      → x.parse_prefix (x.print_prefix p) ≡ some p

-- The errors, with the index of the source route where one is named.
pub data OptionError : Type 0 where
  not_a_prefix : String → OptionError
  invalid_destination invalid_source families_differ source_not_assigned : ℕ → OptionError
  conflicting_sources : Prefix → OptionError

abbrev pub ResultOf : Type 0 → Type 0
ResultOf A = Result OptionError A

-- The variables of the loop of normalizeTunAddrs; what it has seen is what it has put out.
pub record Gathered : Type 0 where
  pub out : List String
  pub contains_dns : Bool
  pub contains_fallback_addr : Bool

-- What normalizeTunAddrs knows before the loop: the DNS address and the fallback prefix, which may
-- both be invalid.
pub record Wanted : Type 0 where
  pub dns_addr : Addr
  pub fallback_prefix : Prefix

module _ (x : PrefixText) where
  abbrev or_zero : Option Addr → Addr
  or_zero none = Addr.invalid
  or_zero (some a) = a

  abbrev pub add_unless_seen : String → List String → List String
  add_unless_seen cidr out = if any (str_eq cidr) out then out else out ++ cidr ∷ []

  unfoldable pub gather_addr : Wanted → Prefix → Gathered → Gathered
  unfolding is_loopback addr_eq
  gather_addr w p g = if is_loopback p.addr then g else record {
    out = add_unless_seen (x.print_prefix p) g.out;
    contains_dns = g.contains_dns || (is_valid w.dns_addr && addr_eq p.addr w.dns_addr);
    contains_fallback_addr =
        g.contains_fallback_addr
        || (Prefix.is_valid w.fallback_prefix && addr_eq p.addr w.fallback_prefix.addr);
  }

  unfoldable pub gather_addrs : Wanted → Gathered → List String → ResultOf Gathered
  gather_addrs w g [] = ok g
  gather_addrs w g (t ∷ ts) = elim (x.parse_prefix t) [
    | none ↦ err (not_a_prefix t)
    | some p ↦ gather_addrs w (gather_addr w p g) ts
  ]

  -- The addition of the fallback.
  unfoldable pub add_fallback : Wanted → Gathered → Gathered
  unfolding addr_eq
  add_fallback w g =
      if Prefix.is_valid w.fallback_prefix && not g.contains_fallback_addr
      then record g {
        out = add_unless_seen (x.print_prefix w.fallback_prefix) g.out;
        contains_dns =
            g.contains_dns || (is_valid w.dns_addr && addr_eq w.fallback_prefix.addr w.dns_addr);
      }
      else g

  abbrev pub chosen_dns : Wanted → Gathered → Addr
  chosen_dns w g =
      if is_valid w.dns_addr && g.contains_dns
      then w.dns_addr
      else (if Prefix.is_valid w.fallback_prefix then w.fallback_prefix.addr else Addr.invalid)

  unfoldable pub finish_addrs : Wanted → Gathered → List String × Addr
  unfolding add_fallback
  finish_addrs w g = let h = add_fallback w g in (h.out, chosen_dns w h)

  abbrev pub finish_gathered : Wanted → ResultOf Gathered → ResultOf (List String × Addr)
  finish_gathered w (err e) = err e
  finish_gathered w (ok g) = ok (finish_addrs w g)

  abbrev pub nothing_gathered : Gathered
  nothing_gathered = record { out = []; contains_dns = false; contains_fallback_addr = false }

  abbrev pub wanted : String → Prefix → Wanted
  wanted dns_ip fallback = record {
    dns_addr = or_zero (x.parse_addr dns_ip);
    fallback_prefix = fallback;
  }

  unfoldable pub normalize_tun_addrs : List String → String → String → ResultOf (List String × Addr)
  normalize_tun_addrs addrs fallback_cidr dns_ip =
      if str_eq fallback_cidr ""
      then finish_gathered (wanted dns_ip zero_prefix)
          (gather_addrs (wanted dns_ip zero_prefix) nothing_gathered addrs)
      else elim (x.parse_prefix fallback_cidr) [
        | none ↦ err (not_a_prefix fallback_cidr)
        | some p ↦
            finish_gathered (wanted dns_ip p)
              (gather_addrs (wanted dns_ip p) nothing_gathered addrs)
      ]

  -- normalizeTunRoutes, from what was put out.
  unfoldable pub gather_routes : List String → List String → ResultOf (List String)
  unfolding is_loopback
  gather_routes out [] = ok out
  gather_routes out (t ∷ ts) = elim (x.parse_prefix t) [
    | none ↦ err (not_a_prefix t)
    | some p ↦
        gather_routes (if is_loopback p.addr then out else add_unless_seen (x.print_prefix p) out)
          ts
  ]

  unfoldable pub normalize_tun_routes : List String → ResultOf (List String)
  unfolding gather_routes
  normalize_tun_routes = gather_routes []

  -- The set of the addresses of the TUN.
  unfoldable pub assigned_addrs : List String → ResultOf (List Addr)
  assigned_addrs [] = ok []
  assigned_addrs (t ∷ ts) = elim (x.parse_prefix t) [
    | none ↦ err (not_a_prefix t)
    | some p ↦ elim (assigned_addrs ts) [ err e ↦ err e | ok as_ ↦ ok (p.addr ∷ as_) ]
  ]

  -- routeFamilies: texts that are no prefixes are passed over.
  abbrev pub add_family : Option Prefix → FamilySet → FamilySet
  add_family none f = f
  add_family (some p) f =
      if is4 p.addr
      then record f { ipv4 = true }
      else (if is6 p.addr then record f { ipv6 = true } else f)

  unfoldable pub families_of : List String → FamilySet
  families_of [] = record { ipv4 = false; ipv6 = false }
  families_of (t ∷ ts) = add_family (x.parse_prefix t) (families_of ts)

  abbrev pub or_both : FamilySet → FamilySet
  or_both f = if not f.ipv4 && not f.ipv6 then both_families else f

  unfoldable pub route_families : List String → List String → FamilySet
  unfolding families_of
  route_families addrs routes = or_both (families_of (addrs ++ routes))

-- validTunSourceRouteAddr has the conditions of validPreferredSource in routing/config.go.
unfoldable pub valid_tun_source_route_addr : Addr → Bool
unfolding is4in6 is_unspecified is_multicast is_loopback is_global_unicast is_link_local_unicast
valid_tun_source_route_addr a =
    is_valid a
    && not (is4in6 a)
    && not (is_unspecified a)
    && not (is_multicast a)
    && not (is_loopback a)
    && str_eq (zone a) no_zone
    && (is_global_unicast a || is_link_local_unicast a)

abbrev pub masked_route : SourceRoute → SourceRoute
masked_route r = record { destination = masked r.destination; source = r.source }

-- What follows a route whose masked destination has, or has not, been seen with a source.
abbrev pub keep_new :
    SourceRoute
    → Option Addr
    → ResultOf (List SourceRoute)
    → ResultOf (List SourceRoute)
    → ResultOf (List SourceRoute)
keep_new r (some source) skipped kept =
    if not (addr_eq source r.source) then err (conflicting_sources r.destination) else skipped
keep_new r none skipped (err e) = err e
keep_new r none skipped (ok rest) = ok (r ∷ rest)

-- The loop of normalizeTunSourceRoutes at index `i`; sysnet.TunSourceRoute has the same two fields.
unfoldable pub normalize_from :
    List Addr → ℕ → List SourceRoute → List SourceRoute → ResultOf (List SourceRoute)
normalize_from assigned i seen [] = ok []
normalize_from assigned i seen (r ∷ rs) =
    let skipped = normalize_from assigned (suc i) seen rs in
    let kept = normalize_from assigned (suc i) (masked_route r ∷ seen) rs in
    if not (Prefix.is_valid r.destination) || is4in6 r.destination.addr
    then err (invalid_destination i)
    else (if not (valid_tun_source_route_addr r.source)
        then err (invalid_source i)
        else (if (if is4 r.destination.addr then not (is4 r.source) else is4 r.source)
            then err (families_differ i)
            else (if not (any (addr_eq r.source) assigned)
                then err (source_not_assigned i)
                else keep_new (masked_route r) (seen_source (masked r.destination) seen) skipped
                    kept)))
