-- ===== src/System/Examples.antt =====
-- The theorems on the default TUN, used at the options of a small VPN.
use Prim.Native.String.{String}
use text.Mathlib.Text.{◌==◌ as str_eq}
use sysnet_linux.Base.{
  ap, sym, ◌+ℤ◌, ◌==◌, ◌⊎◌, pos, ◌≡◌, refl, Bool, true, false, List, [], ◌∷◌, ◌++◌, Option, none,
  some, ok, if◌then◌else◌, arith, Bool-cases, inl, inr,
}
use sysnet_linux.Net.Addr.{Addr, is_loopback, addr_eq, is4in6}
use sysnet_linux.Net.Prefix.{Prefix, prefix_from, prefix_eq, masked}
use sysnet_linux.Routing.Model.{SourceRoute}
use sysnet_linux.Routing.Config.{
  validate, seen_source, reserved_route_table, marks_overlap, validate_source_routes,
}
use sysnet_linux.System.Options.{
  PrefixText, PrefixTextLaws, normalize_tun_addrs, gather_addr, gather_addrs, add_fallback,
  finish_addrs, normalize_from, assigned_addrs, valid_tun_source_route_addr,
}
use sysnet_linux.Routing.Config.{Config}
use sysnet_linux.Routing.Config.Valid.{validate_iff}
use sysnet_linux.System.Updates.{
  Host, TunState, set_default_tun_addrs, add_default_tun_addr, set_default_tun_routes,
}
use sysnet_linux.System.Consistent.{IsConsistent}
use sysnet_linux.System.Settled.{Settles, updates-Settles}
use sysnet_linux.System.Built.{
  Marks, probe_config, normalize_tun_source_routes, default_tun_config, default_tun_config_valid,
}

-- 10.8.0.2/24 and 10.250.0.1/24.
abbrev own : Prefix
own = prefix_from (Addr.v4 0x0a080002) 24

abbrev fallback : Prefix
fallback = prefix_from (Addr.v4 0x0afa0001) 24

-- Two texts, and no others.
abbrev meaning : String → Option Prefix
meaning t =
    if str_eq t "10.8.0.2/24"
    then some own
    else (if str_eq t "10.250.0.1/24" then some fallback else none)

abbrev is_own : Addr → Bool
is_own (Addr.v4 n) = n == 0x0a080002
is_own _ = false

abbrev text_of : Prefix → String
text_of p = if is_own p.addr then "10.8.0.2/24" else "10.250.0.1/24"

abbrev texts : PrefixText
texts = record {
  parse_prefix = meaning;
  print_prefix = text_of;
  parse_addr = λ t. some (Addr.v4 0x0a080002);
  print_addr = λ a. "10.8.0.2";
}

known : (t : String) (p : Prefix) → meaning t ≡ some p → (p ≡ own) ⊎ (p ≡ fallback)
known t p e = elim (Bool-cases (str_eq t "10.8.0.2/24")) [
  | inl b ↦ inl (sym (some-injective (rw b at e)))
  | inr b ↦ elim (Bool-cases (str_eq t "10.250.0.1/24")) [
    | inl c ↦ inr (sym (some-injective (rw (b, c) at e)))
    | inr c ↦ absurd (none-some (rw (b, c) at e))
  ]
]
  where
    some-injective : {a b : Prefix} → Path (Option Prefix) (some a) (some b) → a ≡ b
    some-injective {a} h = ap (λ o. elim o [ some c ↦ c | none ↦ a ]) h

    none-some : {a : Prefix} → Path (Option Prefix) none (some a) → ⊥
    none-some h = ground arith

abbrev texts_laws : PrefixTextLaws texts
texts_laws = record {
  reparsed = λ t p e. elim (known t p e) [ inl q ↦ rw q refl | inr q ↦ rw q refl ];
}

own_and_fallback :
    normalize_tun_addrs texts ("10.8.0.2/24" ∷ []) "10.250.0.1/24" "10.8.0.2"
    ≡ ok ("10.8.0.2/24" ∷ "10.250.0.1/24" ∷ [], Addr.v4 0x0a080002)
unfolding normalize_tun_addrs gather_addrs gather_addr finish_addrs add_fallback is_loopback addr_eq
own_and_fallback = refl

abbrev marks : Marks
marks = record {
  app_bypass_mark = 0xeb9f0001;
  app_bypass_mask = 0xffffffff;
  user_mark = 0xeb9f0002;
  user_mark_mask = 0xffffffff;
}

marks_accepted : validate (probe_config marks) ≡ none
unfolding validate probe_config reserved_route_table ◌+ℤ◌ marks_overlap validate_source_routes
marks_accepted = refl

-- 192.168.7.9/16 from 10.8.0.2, twice.
abbrev office : SourceRoute
office = record { destination = prefix_from (Addr.v4 0xc0a80709) 16; source = Addr.v4 0x0a080002 }

abbrev office_masked : SourceRoute
office_masked = record {
  destination = prefix_from (Addr.v4 0xc0a80000) 16;
  source = Addr.v4 0x0a080002;
}

office_normalized :
    normalize_tun_source_routes texts ("10.8.0.2/24" ∷ []) (some (office ∷ office ∷ []))
    ≡ ok (office_masked ∷ [])
unfolding normalize_tun_source_routes assigned_addrs normalize_from is4in6
    valid_tun_source_route_addr seen_source prefix_eq masked
office_normalized = refl

default_tun_config_valid_example :
    validate (
      default_tun_config texts marks
        (pos 7)
        ("10.8.0.2/24" ∷ [])
        []
        (office_masked ∷ [])
        true
        false)
    ≡ none
default_tun_config_valid_example =
    default_tun_config_valid texts marks (pos 7) ("10.8.0.2/24" ∷ []) []
      (some (office ∷ office ∷ [])) (office_masked ∷ []) true false marks_accepted (omega arith)
      office_normalized

-- A link and a routing manager in memory, which accept everything.
abbrev memory : Host
memory = record {
  State = List String × List String;
  Failure = Unit;
  get_tun_addrs = λ s. (ok s.0, s);
  get_tun_routes = λ s. (ok s.1, s);
  set_tun_addrs = λ addrs s. (none, (addrs, s.1));
  add_tun_addr = λ addr s. (none, (s.0 ++ addr ∷ [], s.1));
  set_tun_routes = λ routes s. (none, (s.0, routes));
  apply = λ c s. (none, s);
  rollback = λ c s. (none, s);
}

abbrev built : Config
built =
    default_tun_config texts marks (pos 7) ("10.8.0.2/24" ∷ []) [] (office_masked ∷ []) true false

abbrev tun_state : TunState
tun_state = record {
  dns_ip = Addr.v4 0x0a080002;
  addrs = "10.8.0.2/24" ∷ [];
  routes = [];
  routing_config = some built;
}

tun_state-IsConsistent : IsConsistent texts tun_state
unfolding assigned_addrs default_tun_config addr_eq
tun_state-IsConsistent = (
  (validate_iff built).0 (
      default_tun_config_valid texts marks (pos 7) ("10.8.0.2/24" ∷ []) []
        (some (office ∷ office ∷ [])) (office_masked ∷ []) true false marks_accepted (omega arith)
        office_normalized),
  (own.addr ∷ [], refl, (refl, tt)),
)

updates-Settles_example :
    ((addrs : List String)
      → Settles texts memory tun_state
          (set_default_tun_addrs texts memory "10.250.0.1/24" addrs tun_state ([], [])))
    × ((addr : String)
        → Settles texts memory tun_state
            (add_default_tun_addr texts memory "10.250.0.1/24" addr tun_state ([], [])))
    × ((routes : List String)
        → Settles texts memory tun_state
            (set_default_tun_routes texts memory routes tun_state ([], [])))
updates-Settles_example =
    updates-Settles texts memory "10.250.0.1/24" tun_state ([], []) tun_state-IsConsistent
