-- ===== src/Dns/Direct/Files.antt =====
-- The file /etc/resolv.conf under the operations of dns/direct.go: which of them change it, and what
-- restoreResolvConfIfOwned makes of it.
use Prim.Native.String.{String}
use sysnet_linux.Base.{
  ◌≡◌, refl, sym, ap, ◌∙◌, true, false, not, List, [], ◌∷◌, Option, none, some, Result, ok, err,
  if-case, arith, if◌then◌else◌,
}
use sysnet_linux.Net.Addr.{Addr}
use sysnet_linux.Dns.Servers.{server_urls, same_strings}
use sysnet_linux.Dns.Provider.{
  Provider, DnsError, Outcome, upstreams, switch_client, attached, routed, close_old,
  refresh_upstreams, close_clients,
}
use sysnet_linux.Dns.Direct.{
  Host, FileError, not_exist, other_error, direct_owner, direct_resolvconf_owned, removed, put_back,
  restore_read, restore_resolv_conf_if_owned, direct,
}

module _ (h : Host) where
  open h use {State, Failure}

  -- The contents of /etc/resolv.conf: what is read is there, what is written or removed without an
  -- error is or is gone, only writing and removing change them, and Config.Write names its owner in
  -- the text.
  pub record FileLaws (contents : State → Option String) : Type 0 where
    pub read_ok : (s : State) (bs : String) → (h.read_file s).0 ≡ ok bs → contents s ≡ some bs
    pub read_absent : (s : State) → (h.read_file s).0 ≡ err not_exist → contents s ≡ none
    pub read_keeps : (s : State) → contents (h.read_file s).1 ≡ contents s
    pub written :
        (bs : String) (s : State)
        → (h.write_file bs s).0 ≡ none
        → contents (h.write_file bs s).1 ≡ some bs
    pub removed_ok :
        (s : State)
        → (removed h (h.remove_file s)).0 ≡ none
        → contents (removed h (h.remove_file s)).1 ≡ none
    pub attach_keeps : (us : List String) (s : State) → contents (h.attach us s).1 ≡ contents s
    pub router_keeps : (s : State) → contents (h.set_router s).1 ≡ contents s
    pub client_keeps :
        (us : List String) (s : State) → contents (h.close_client us s).1 ≡ contents s
    pub base_keeps : (s : State) → contents (h.close_base s).1 ≡ contents s
    pub marked :
        (as_ : List Addr) (bs : String)
        → h.print_config as_ direct_owner ≡ ok bs
        → direct_resolvconf_owned bs ≡ true

  module _ (contents : State → Option String) (laws : FileLaws contents)
      (original : Option String) where
    pub refresh-contents :
        (exclude : List Addr) (r : Provider) (s : State)
        → contents (refresh_upstreams (direct h original) exclude r s).2 ≡ contents s
    unfolding refresh_upstreams
    refresh-contents exclude r s = of (server_urls h.print_server (upstreams r exclude))
      where
        old :
            (c : Option (List String)) (t : State)
            → contents (close_old (direct h original) c t) ≡ contents t
        old none t = refl
        old (some us) t = laws.client_keeps us t

        routes :
            (us : List String) (o : Option Failure × State)
            → contents (routed (direct h original) us r o).2 ≡ contents o.1
        routes us (some e, t) = laws.client_keeps us t
        routes us (none, t) = old r.client t

        attaches :
            (us : List String) (o : Option Failure × State)
            → contents (attached (direct h original) us r o).2 ≡ contents o.1
        attaches us (some e, t) = laws.client_keeps us t
        attaches us (none, t) = routes us (h.set_router t) ∙ laws.router_keeps t

        of : (us : List String) → contents (switch_client (direct h original) us r s).2 ≡ contents s
        of [] = refl
        of (u ∷ us) =
            if-case (λ (x : Outcome (direct h original)). contents x.2 ≡ contents s)
              (same_strings (u ∷ us) r.upstream_sig) (λ _. refl)
              (λ _.
                if-case (λ (x : Outcome (direct h original)). contents x.2 ≡ contents s) r.closed
                  (λ _. laws.client_keeps (u ∷ us) s)
                  (λ _. attaches (u ∷ us) (h.attach (u ∷ us) s) ∙ laws.attach_keeps (u ∷ us) s))

    -- The file that is not the provider's, or the original.
    abbrev pub restored : Option String → Option String
    restored none = original
    restored (some bs) = if not (direct_resolvconf_owned bs) then some bs else original

    put_back-contents : (s t : State) → put_back h original s ≡ (none, t) → contents t ≡ original
    put_back-contents s t = of original
      where
        of : (o : Option String) → put_back h o s ≡ (none, t) → contents t ≡ o
        of (some bs) k = ap contents (sym (ap (λ x. x.1) k)) ∙ laws.written bs s (ap (λ x. x.0) k)
        of none k = ap contents (sym (ap (λ x. x.1) k)) ∙ laws.removed_ok s (ap (λ x. x.0) k)

    pub restore-contents :
        (s t : State)
        → restore_resolv_conf_if_owned h original s ≡ (none, t)
        → contents t ≡ restored (contents s)
    unfolding restore_resolv_conf_if_owned
    restore-contents s t = of (h.read_file s) refl
      where
        of :
            (x : Result (FileError Failure) String × State)
            → h.read_file s ≡ x
            → restore_read h original x ≡ (none, t)
            → contents t ≡ restored (contents s)
        of (err (other_error e), u) f k = absurd (ground (arith, ap (λ x. x.0) k))
        of (err not_exist, u) f k =
            put_back-contents u t k ∙ sym (ap restored (laws.read_absent s (ap (λ x. x.0) f)))
        of (ok bs, u) f k =
            if-case
              (λ (x : Option Failure × State). x ≡ (none, t) → contents t ≡ restored (contents s))
              (not (direct_resolvconf_owned bs))
              (λ n q.
                ap contents (sym (ap (λ x. x.1) q))
                ∙ sym (ap (λ x. contents x.1) f)
                ∙ laws.read_keeps s
                ∙ laws.read_ok s bs (ap (λ x. x.0) f)
                ∙ sym (ap restored (laws.read_ok s bs (ap (λ x. x.0) f)) ∙ rw n refl))
              (λ n q.
                put_back-contents u t q
                ∙ sym (ap restored (laws.read_ok s bs (ap (λ x. x.0) f)) ∙ rw n refl))
              k

    -- A file that is not the provider's is left alone, whatever fails.
    pub foreign-contents :
        (s : State) (bs : String)
        → contents s ≡ some bs
        → direct_resolvconf_owned bs ≡ false
        → contents (restore_resolv_conf_if_owned h original s).1 ≡ some bs
    unfolding restore_resolv_conf_if_owned
    foreign-contents s bs c n = of (h.read_file s) refl
      where
        kept :
            (x : Result (FileError Failure) String × State)
            → h.read_file s ≡ x
            → contents x.1 ≡ some bs
        kept x f = sym (ap (λ y. contents y.1) f) ∙ laws.read_keeps s ∙ c

        some-injective : {x : String} → Path (Option String) (some x) (some bs) → x ≡ bs
        some-injective {x} e = ap (λ o. elim o [ some y ↦ y | none ↦ x ]) e

        of :
            (x : Result (FileError Failure) String × State)
            → h.read_file s ≡ x
            → contents (restore_read h original x).1 ≡ some bs
        of (err (other_error e), u) f = kept (err (other_error e), u) f
        of (err not_exist, u) f =
            absurd (ground (arith, sym (laws.read_absent s (ap (λ x. x.0) f)) ∙ c))
        of (ok cs, u) f =
            if-case (λ (x : Option Failure × State). contents x.1 ≡ some bs)
              (not (direct_resolvconf_owned cs)) (λ _. kept (ok cs, u) f)
              (λ y. absurd (
                ground (
                  arith,
                  y,
                  n,
                  ap direct_resolvconf_owned
                      (some-injective (sym (laws.read_ok s cs (ap (λ x. x.0) f)) ∙ c)),
                )))

    pub close_clients-contents :
        (es : List (DnsError Failure)) (c : Option (List String)) (r : Provider) (s : State)
        → contents (close_clients (direct h original) es c r s).2 ≡ contents s
    close_clients-contents es none r s = laws.base_keeps s
    close_clients-contents es (some us) r s = laws.client_keeps us _ ∙ laws.base_keeps s
