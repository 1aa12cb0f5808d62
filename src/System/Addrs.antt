-- ===== src/System/Addrs.antt =====
-- What normalizeTunAddrs of sysnet.go puts out: the DNS address is one of the TUN's own.
use mathlib.Core.List.{Memᴰ}
use Prim.Native.String.{String}
use text.Mathlib.Text.{◌==◌ as str_eq}
use text.Mathlib.TextEquality.{eq_iff}
use sysnet_linux.Base.{
  ◌≡◌, refl, sym, subst, inl, inr, Bool, true, false, not, ◌&&◌, ◌||◌, List, [], ◌∷◌, some, ok, err,
  ok-injective, any, arith, Bool-cases, Option-cases, mem-append_left, mem-append_right,
}
use sysnet_linux.Base.Unseen.{any_found}
use sysnet_linux.Net.Addr.{Addr, is_valid, is_loopback, addr_eq, addr_eq_iff}
use sysnet_linux.Net.Prefix.{Prefix, zero_prefix}
use sysnet_linux.Net.Prefix
use sysnet_linux.System.Options.{
  PrefixText, PrefixTextLaws, ResultOf, Gathered, Wanted, add_unless_seen, gather_addr,
  gather_addrs, add_fallback, finish_addrs, chosen_dns, finish_gathered, wanted, nothing_gathered,
  normalize_tun_addrs,
}
use sysnet_linux.System.Sources.{conflict}

module _ (x : PrefixText) (laws : PrefixTextLaws x) where
  -- An address of one of the texts.
  abbrev pub IsAssigned : Addr → List String → Type 0
  IsAssigned a out =
      (t : String) × (p : Prefix) × Memᴰ t out × (x.parse_prefix t ≡ some p) × (p.addr ≡ a)

  -- A prefix that is the meaning of some text.
  abbrev IsParsed : Prefix → Type 0
  IsParsed p = (t : String) × (x.parse_prefix t ≡ some p)

  add_unless_seen-keeps :
      (a : Addr) (t : String) (out : List String)
      → IsAssigned a out
      → IsAssigned a (add_unless_seen x t out)
  add_unless_seen-keeps a t out (s, p, m, e, q) = elim (Bool-cases (any (str_eq t) out)) [
    | inl b ↦ rw b (s, p, m, e, q)
    | inr b ↦ rw b (s, p, mem-append_left (t ∷ []) m, e, q)
  ]

  is_added : (t : String) (out : List String) → Memᴰ t (add_unless_seen x t out)
  is_added t out = elim (Bool-cases (any (str_eq t) out)) [
    | inl b ↦
        let (s, m, e) = any_found (str_eq t) out b in
        rw b (subst (λ u. Memᴰ u out) (sym ((eq_iff t s).0 e)) m)
    | inr b ↦ rw b (mem-append_right out (Memᴰ.head refl))
  ]

  add_unless_seen-IsAssigned :
      (p : Prefix) (out : List String)
      → IsParsed p
      → IsAssigned p.addr (add_unless_seen x (x.print_prefix p) out)
  add_unless_seen-IsAssigned p out (t, e) =
      (x.print_prefix p, p, is_added (x.print_prefix p) out, laws.reparsed t p e, refl)

  -- What the flags of the loop say is true.
  abbrev IsTruthful : Wanted → Gathered → Type 0
  IsTruthful w g =
      (g.contains_dns ≡ true → IsAssigned w.dns_addr g.out)
      × (g.contains_fallback_addr ≡ true → IsAssigned w.fallback_prefix.addr g.out)

  flagged :
      (a : Addr) (b found : Bool) (p : Prefix) (out : List String)
      → IsParsed p
      → (b ≡ true → IsAssigned a out)
      → (b || (found && addr_eq p.addr a)) ≡ true
      → IsAssigned a (add_unless_seen x (x.print_prefix p) out)
  flagged a true found p out v h k = add_unless_seen-keeps a (x.print_prefix p) out (h refl)
  flagged a false found p out v h k =
      subst (λ c. IsAssigned c (add_unless_seen x (x.print_prefix p) out))
        ((addr_eq_iff p.addr a).0 (second found (addr_eq p.addr a) k))
        (add_unless_seen-IsAssigned p out v)
    where
      second : (f g : Bool) → (f && g) ≡ true → g ≡ true
      second f g q = ground arith

  gather_addr-IsTruthful :
      (w : Wanted) (p : Prefix) (g : Gathered)
      → IsParsed p
      → IsTruthful w g
      → IsTruthful w (gather_addr x w p g)
  unfolding gather_addr
  gather_addr-IsTruthful w p g v h = elim (Bool-cases (is_loopback p.addr)) [
    | inl l ↦ rw (l, gather_addr) h
    | inr l ↦
        rw (l, gather_addr)
          (
            flagged w.dns_addr g.contains_dns (is_valid w.dns_addr) p g.out v h.0,
            flagged w.fallback_prefix.addr g.contains_fallback_addr
                (Prefix.is_valid w.fallback_prefix) p g.out v h.1,
          )
  ]

  gather_addrs-IsTruthful :
      (w : Wanted) (g : Gathered) (ts : List String) (r : Gathered)
      → IsTruthful w g
      → gather_addrs x w g ts ≡ ok r
      → IsTruthful w r
  unfolding gather_addrs
  gather_addrs-IsTruthful w g [] r h e = subst (IsTruthful w) (ok-injective e) h
  gather_addrs-IsTruthful w g (t ∷ ts) r h e = elim (Option-cases (x.parse_prefix t)) [
    | inl q ↦ absurd (conflict (rw (q, gather_addrs) at e))
    | inr (p, q) ↦
        gather_addrs-IsTruthful w (gather_addr x w p g) ts r (gather_addr-IsTruthful w p g (t, q) h)
          (rw (q, gather_addrs) at e)
  ]

  -- What the addition of the fallback leaves.
  abbrev IsComplete : Wanted → Gathered → Type 0
  IsComplete w g =
      (g.contains_dns ≡ true → IsAssigned w.dns_addr g.out)
      × (Prefix.is_valid w.fallback_prefix ≡ true → IsAssigned w.fallback_prefix.addr g.out)

  add_fallback-IsComplete :
      (w : Wanted) (g : Gathered)
      → (Prefix.is_valid w.fallback_prefix ≡ true → IsParsed w.fallback_prefix)
      → IsTruthful w g
      → IsComplete w (add_fallback x w g)
  unfolding add_fallback
  add_fallback-IsComplete w g known h =
      elim (Bool-cases (Prefix.is_valid w.fallback_prefix && not g.contains_fallback_addr)) [
        | inl b ↦
            rw (b, add_fallback)
              (
                flagged w.dns_addr g.contains_dns (is_valid w.dns_addr) w.fallback_prefix g.out
                    (known (first _ _ b)) h.0,
                λ v. add_unless_seen-IsAssigned w.fallback_prefix g.out (known v),
              )
        | inr b ↦
            rw (b, add_fallback)
              (
                h.0,
                λ v. h.1 (present (Prefix.is_valid w.fallback_prefix) g.contains_fallback_addr b v),
              )
      ]
    where
      first : (a b : Bool) → (a && b) ≡ true → a ≡ true
      first a b k = ground arith

      present : (a b : Bool) → (a && not b) ≡ false → a ≡ true → b ≡ true
      present a b k v = ground arith

  chosen_dns-IsAssigned :
      (w : Wanted) (g : Gathered)
      → IsComplete w g
      → is_valid (chosen_dns x w g) ≡ true
      → IsAssigned (chosen_dns x w g) g.out
  chosen_dns-IsAssigned w g h v = elim (Bool-cases (is_valid w.dns_addr && g.contains_dns)) [
    | inl b ↦ rw b (h.0 (second _ _ b))
    | inr b ↦ elim (Bool-cases (Prefix.is_valid w.fallback_prefix)) [
      | inl f ↦ rw (b, f) (h.1 f)
      | inr f ↦ absurd (never (rw (b, f) at v))
    ]
  ]
    where
      second : (f g : Bool) → (f && g) ≡ true → g ≡ true
      second f g q = ground arith

      never : false ≡ true → ⊥
      never e = ground arith

  finished :
      (w : Wanted) (r : ResultOf Gathered) (out : List String) (a : Addr)
      → (Prefix.is_valid w.fallback_prefix ≡ true → IsParsed w.fallback_prefix)
      → ((g : Gathered) → r ≡ ok g → IsTruthful w g)
      → finish_gathered x w r ≡ ok (out, a)
      → is_valid a ≡ true
      → IsAssigned a out
  unfolding finish_addrs
  finished w (err e) out a known h q v = absurd (conflict q)
  finished w (ok g) out a known h q v =
      let same = ok-injective q in
      subst (λ o. IsAssigned o.1 o.0) same
        (chosen_dns-IsAssigned w (add_fallback x w g) (add_fallback-IsComplete w g known (h g refl))
          (subst (λ o. is_valid o.1 ≡ true) (sym same) v))

  -- When a prefix that was parsed is parsed again from its own text, and normalizeTunAddrs succeeds with a valid DNS
  -- address, that address is the address of one of the prefixes that it puts out.
  normalize_tun_addrs-IsAssigned :
      (addrs : List String) (fallback_cidr dns_ip : String) (out : List String) (a : Addr)
      → normalize_tun_addrs x addrs fallback_cidr dns_ip ≡ ok (out, a)
      → is_valid a ≡ true
      → IsAssigned a out
  unfolding normalize_tun_addrs
  normalize_tun_addrs-IsAssigned addrs fallback_cidr dns_ip out a e v =
      elim (Bool-cases (str_eq fallback_cidr "")) [
        | inl b ↦ from zero_prefix (λ k. absurd (ground arith)) (rw (b, normalize_tun_addrs) at e)
        | inr b ↦ elim (Option-cases (x.parse_prefix fallback_cidr)) [
          | inl q ↦ absurd (conflict (rw (b, q, normalize_tun_addrs) at e))
          | inr (p, q) ↦ from p (λ k. (fallback_cidr, q)) (rw (b, q, normalize_tun_addrs) at e)
        ]
      ]
    where
      from :
          (p : Prefix)
          → (Prefix.is_valid p ≡ true → IsParsed p)
          → finish_gathered x
              (wanted x dns_ip p)
              (gather_addrs x (wanted x dns_ip p) (nothing_gathered x) addrs)
            ≡ ok (out, a)
          → IsAssigned a out
      from p known f =
          finished (wanted x dns_ip p) _ out a known
            (λ g q.
              gather_addrs-IsTruthful (wanted x dns_ip p) (nothing_gathered x) addrs g
                (λ k. absurd (ground arith), λ k. absurd (ground arith)) q)
            f v
