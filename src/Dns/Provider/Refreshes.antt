-- ===== src/Dns/Provider/Refreshes.antt =====
-- refreshUpstreams of a provider: it keeps what the provider manages, and a client that it makes
-- avoids the excluded servers.
use Prim.Native.String.{String}
use mathlib.Core.List.{Memᴰ}
use sysnet_linux.Base.{
  ◌≡◌, refl, sym, ap, ◌∙◌, true, List, [], ◌∷◌, Option, none, some, if-case, arith, subst,
}
use sysnet_linux.Net.Addr.{Addr, is_valid}
use sysnet_linux.Dns.Servers.{server_urls, same_strings}
use sysnet_linux.Dns.Provider.{
  Backend, Provider, DnsError, Outcome, upstreams, switch_client, attached, close_old, routed,
  refresh_upstreams,
}
use sysnet_linux.Dns.Provider.Upstreams.{IsUrlOfOther, same_strings-eq, urls-other}

module _ (b : Backend) where
  open b use {State, Failure}

  -- All URLs of the client are of servers with other addresses.
  abbrev pub Avoids : Addr → Provider → Type 0
  Avoids a r =
      (urls : List String)
      → r.client ≡ some urls
      → (u : String) → Memᴰ u urls
      → IsUrlOfOther b.print_server a u

  -- The client is the one of the signature, and while a server is managed it is valid and the client
  -- avoids it.
  pub record IsForwarding (r : Provider) : Type 0 where
    pub signed : (urls : List String) → r.client ≡ some urls → urls ≡ r.upstream_sig
    pub managed_valid : r.active ≡ true → is_valid r.managed ≡ true
    pub avoids : r.active ≡ true → Avoids r.managed r

  -- What refreshUpstreams leaves: the same managed server, still avoided, and the excluded ones
  -- avoided if it succeeds.
  pub record Refreshes (exclude : List Addr) (r : Provider) (x : Outcome b) : Type 0 where
    pub forwarding : IsForwarding x.1
    pub same_managed : x.1.managed ≡ r.managed
    pub same_active : x.1.active ≡ r.active
    pub same_closed : x.1.closed ≡ r.closed
    pub avoids : x.0 ≡ none → (a : Addr) → Memᴰ a exclude → is_valid a ≡ true → Avoids a x.1

  module _ (exclude : List Addr) (r : Provider) (f : IsForwarding r)
      (m : r.active ≡ true → Memᴰ r.managed exclude) where
    abbrev chosen : List String
    chosen = server_urls b.print_server (upstreams r exclude)

    failed-Refreshes : (e : DnsError Failure) (s : State) → Refreshes exclude r (some e, r, s)
    failed-Refreshes e s = record {
      forwarding = f;
      same_managed = refl;
      same_active = refl;
      same_closed = refl;
      avoids = λ h. absurd (ground arith);
    }

    chosen-avoid :
        (a : Addr)
        → Memᴰ a exclude
        → is_valid a ≡ true
        → (u : String) → Memᴰ u chosen
        → IsUrlOfOther b.print_server a u
    chosen-avoid a k v u l = urls-other b.print_server r exclude a u k v l

    kept-Refreshes : (s : State) → chosen ≡ r.upstream_sig → Refreshes exclude r (none, r, s)
    kept-Refreshes s e = record {
      forwarding = f;
      same_managed = refl;
      same_active = refl;
      same_closed = refl;
      avoids = λ h a k v urls c u l.
          chosen-avoid a k v u (subst (λ t. Memᴰ u t) (f.signed urls c ∙ sym e) l);
    }

    some-injective : {x y : List String} → Path (Option (List String)) (some x) (some y) → x ≡ y
    some-injective {x} e = ap (λ o. elim o [ some t ↦ t | none ↦ x ]) e

    switched-Refreshes :
        (s : State)
        → Refreshes exclude r (none, record r { client = some chosen; upstream_sig = chosen }, s)
    switched-Refreshes s = record {
      forwarding = record {
        signed = λ urls c. sym (some-injective c);
        managed_valid = f.managed_valid;
        avoids = λ h urls c u l.
            chosen-avoid r.managed (m h) (f.managed_valid h) u
              (subst (λ t. Memᴰ u t) (sym (some-injective c)) l);
      };
      same_managed = refl;
      same_active = refl;
      same_closed = refl;
      avoids = λ h a k v urls c u l.
          chosen-avoid a k v u (subst (λ t. Memᴰ u t) (sym (some-injective c)) l);
    }

    pub refresh-Refreshes : (s : State) → Refreshes exclude r (refresh_upstreams b exclude r s)
    unfolding refresh_upstreams
    refresh-Refreshes s = of chosen refl
      where
        routes :
            (urls : List String)
            → chosen ≡ urls
            → (o : Option Failure × State) → Refreshes exclude r (routed b urls r o)
        routes urls e (some x, t) = failed-Refreshes (DnsError.failed x) _
        routes urls e (none, t) =
            subst
              (λ us.
                Refreshes exclude r
                  (none, record r { client = some us; upstream_sig = us }, close_old b r.client t))
              e (switched-Refreshes (close_old b r.client t))

        attaches :
            (urls : List String)
            → chosen ≡ urls
            → (o : Option Failure × State) → Refreshes exclude r (attached b urls r o)
        attaches urls e (some x, t) = failed-Refreshes (DnsError.failed x) _
        attaches urls e (none, t) = routes urls e (b.set_router t)

        of : (urls : List String) → chosen ≡ urls → Refreshes exclude r (switch_client b urls r s)
        of [] e = failed-Refreshes DnsError.no_upstreams s
        of (u ∷ us) e =
            if-case (Refreshes exclude r) (same_strings (u ∷ us) r.upstream_sig)
              (λ y. kept-Refreshes s (e ∙ same_strings-eq (u ∷ us) r.upstream_sig y))
              (λ _.
                if-case (Refreshes exclude r) r.closed
                  (λ _. failed-Refreshes DnsError.closed_error _)
                  (λ _. attaches (u ∷ us) e (b.attach (u ∷ us) s)))
