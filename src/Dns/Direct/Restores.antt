-- ===== src/Dns/Direct/Restores.antt =====
-- UnsetDNS and Close of dns/direct.go put the original file back, and leave a file alone that is not
-- the provider's.
use Prim.Native.String.{String}
use sysnet_linux.Base.{
  ok-injective, Bool, List, ◌≡◌, refl, sym, ap, ◌∙◌, true, false, not, ◌&&◌, [], ◌∷◌, Option, none,
  some, Result, ok, err, if-case, arith, if◌then◌else◌,
}
use sysnet_linux.Net.Addr.{Addr, is_valid}
use sysnet_linux.Dns.Servers.{AddrPort}
use sysnet_linux.Dns.Provider.{
  require_dns_networks, started, Provider, DnsError, Outcome, Joined, refresh_upstreams, installed,
  install_after, set_dns, refreshed, after_uninstall, unset_dns, after_cleanup, close,
}
use sysnet_linux.Dns.Direct.{
  Built, built, parsed, read_original, new_direct, unless_refused, resolvconf_nameservers,
  other_error, not_exist, FileError, Host, direct_owner, direct_resolvconf_owned,
  resolvconf_for_server, write_result, write_resolvconf, restore_resolv_conf_if_owned, direct,
}
use sysnet_linux.Dns.Direct.Files.{
  FileLaws, restored, refresh-contents, restore-contents, foreign-contents, close_clients-contents,
}

module _ (h : Host) where
  open h use {State, Failure}

  module _ (contents : State → Option String) (laws : FileLaws h contents)
      (original : Option String) where
    abbrev IsOwned : State → Type 0
    IsOwned t = (bs : String) × (contents t ≡ some bs) × (direct_resolvconf_owned bs ≡ true)

    set_dns-IsOwned :
        (server : Addr) (r r' : Provider) (s t : State)
        → set_dns (direct h original) server r s ≡ (none, r', t)
        → IsOwned t × (r'.active ≡ true)
    unfolding set_dns write_resolvconf resolvconf_for_server
    set_dns-IsOwned server r r' s t =
        if-case P (not (is_valid server)) (λ _ k. absurd (ground (arith, ap (λ x. x.0) k)))
          (λ _.
            if-case P r.closed (λ _ k. absurd (ground (arith, ap (λ x. x.0) k)))
              (λ _. of (
                refresh_upstreams (direct h original)
                  (server ∷ (if r.active then r.managed ∷ [] else [])) r s)))
      where
        P : Outcome (direct h original) → Type 0
        P x = x ≡ (none, r', t) → IsOwned t × (r'.active ≡ true)

        write :
            (r1 : Provider) (s1 : State) (x : Result Failure String)
            → h.print_config (server ∷ []) direct_owner ≡ x
            → installed (direct h original) server r1 (write_result h x s1) ≡ (none, r', t)
            → IsOwned t × (r'.active ≡ true)
        write r1 s1 (err e) f k = absurd (ground (arith, ap (λ x. x.0) k))
        write r1 s1 (ok bs) f k = done (h.write_file bs s1) refl k
          where
            done :
                (o : Option Failure × State)
                → h.write_file bs s1 ≡ o
                → installed (direct h original) server r1 o ≡ (none, r', t)
                → IsOwned t × (r'.active ≡ true)
            done (some e, u) g q = absurd (ground (arith, ap (λ x. x.0) q))
            done (none, u) g q = (
              (
                bs,
                ap contents (sym (ap (λ x. x.2) q))
                    ∙ sym (ap (λ x. contents x.1) g)
                    ∙ laws.written bs s1 (ap (λ x. x.0) g),
                laws.marked (server ∷ []) bs f,
              ),
              sym (ap (λ x. x.1.active) q),
            )

        of : (x : Outcome (direct h original)) → P (install_after (direct h original) server x)
        of (some e, r1, s1) k = absurd (ground (arith, ap (λ x. x.0) k))
        of (none, r1, s1) k = write r1 s1 (h.print_config (server ∷ []) direct_owner) refl k

    unset_dns-contents :
        (r r' : Provider) (s t : State)
        → r.active ≡ true
        → unset_dns (direct h original) r s ≡ ([], r', t)
        → contents t ≡ restored h contents laws original (contents s)
    unfolding unset_dns
    unset_dns-contents r r' s t a =
        if-case P r.closed (λ _ k. absurd (ground (arith, ap (λ x. x.0) k)))
          (λ _.
            if-case P (not r.active) (λ n. absurd (ground arith))
              (λ _. of (restore_resolv_conf_if_owned h original s) refl))
      where
        P : Joined (direct h original) → Type 0
        P x = x ≡ ([], r', t) → contents t ≡ restored h contents laws original (contents s)

        joined :
            (o : Option Failure) (u : State) (x : Outcome (direct h original))
            → contents x.2 ≡ contents u
            → restore_resolv_conf_if_owned h original s ≡ (o, u)
            → refreshed (direct h original) r.managed o x ≡ ([], r', t)
            → contents t ≡ restored h contents laws original (contents s)
        joined none u (none, r1, v) c f k =
            ap contents (sym (ap (λ x. x.2) k))
            ∙ c
            ∙ restore-contents h contents laws original s u f
        joined (some e) u (none, r1, v) c f k = absurd (ground (arith, ap (λ x. x.0) k))
        joined none u (some e, r1, v) c f k = absurd (ground (arith, ap (λ x. x.0) k))
        joined (some e) u (some g, r1, v) c f k = absurd (ground (arith, ap (λ x. x.0) k))

        of :
            (x : Option Failure × State)
            → restore_resolv_conf_if_owned h original s ≡ x
            → P (after_uninstall (direct h original) r x)
        of (o, u) f =
            joined o u (refresh_upstreams (direct h original) (r.managed ∷ []) r u)
              (refresh-contents h contents laws original (r.managed ∷ []) r u) f

    -- SetDNS and then UnsetDNS leave what the field `original` holds.
    set_dns-unset_dns :
        (server : Addr) (r r' r'' : Provider) (s t u : State)
        → set_dns (direct h original) server r s ≡ (none, r', t)
        → unset_dns (direct h original) r' t ≡ ([], r'', u)
        → contents u ≡ original
    set_dns-unset_dns server r r' r'' s t u e f =
        let (o, a) = set_dns-IsOwned server r r' s t e in
        unset_dns-contents r' r'' t u a f ∙ ap (restored h contents laws original) o.1 ∙ rw o.2 refl

    -- When the file is not the provider's, UnsetDNS and Close leave it as it is, whatever fails, given
    -- the laws of the file.
    pub foreign_file_kept :
        (r : Provider) (s : State) (bs : String)
        → contents s ≡ some bs
        → direct_resolvconf_owned bs ≡ false
        → (contents (unset_dns (direct h original) r s).2 ≡ some bs)
          × (contents (close (direct h original) r s).2 ≡ some bs)
    unfolding unset_dns close
    foreign_file_kept r s bs c n = (
      if-case P r.closed (λ _. c)
          (λ _.
            if-case P (not r.active) (λ _. c)
              (λ _.
                unset (restore_resolv_conf_if_owned h original s)
                  (foreign-contents h contents laws original s bs c n))),
      if-case P (r.closed && not r.active) (λ _. c)
          (λ _.
            if-case P r.active
              (λ _.
                cleaned (restore_resolv_conf_if_owned h original s)
                  (foreign-contents h contents laws original s bs c n))
              (λ _. close_clients-contents h contents laws original [] r.client shut s ∙ c)),
    )
      where
        P : Joined (direct h original) → Type 0
        P x = contents x.2 ≡ some bs

        shut : Provider
        shut = record r { closed = true; client = none }

        joined :
            (o : Option Failure) (x : Outcome (direct h original))
            → contents x.2 ≡ some bs
            → P (refreshed (direct h original) r.managed o x)
        joined none (none, r1, v) k = k
        joined (some e) (none, r1, v) k = k
        joined none (some e, r1, v) k = k
        joined (some e) (some g, r1, v) k = k

        unset :
            (x : Option Failure × State)
            → contents x.1 ≡ some bs
            → P (after_uninstall (direct h original) r x)
        unset (o, u) k =
            joined o (refresh_upstreams (direct h original) (r.managed ∷ []) r u)
              (refresh-contents h contents laws original (r.managed ∷ []) r u ∙ k)

        cleaned :
            (x : Option Failure × State)
            → contents x.1 ≡ some bs
            → P (after_cleanup (direct h original) r.client shut x)
        cleaned (some e, u) k =
            close_clients-contents h contents laws original (DnsError.failed e ∷ []) r.client shut u
            ∙ k
        cleaned (none, u) k =
            close_clients-contents h contents laws original [] r.client
              (record shut { managed = Addr.invalid; active = false }) u
            ∙ k

  -- NewDirect keeps what the file holds, or that there is none.
  new_direct-original :
      (contents : State → Option String)
      → FileLaws h contents
      → (has_listen has_dial : Bool) (fallback : List AddrPort) (d : Built h) (s t : State)
      → new_direct h has_listen has_dial fallback s ≡ (ok d, t)
      → d.original ≡ contents s
  unfolding new_direct
  new_direct-original contents laws has_listen has_dial fallback d s t =
      refused (require_dns_networks has_listen has_dial)
    where
      of_built :
          (o : Option String) (x : Outcome (direct h none))
          → built h o x ≡ (ok d, t)
          → d.original ≡ o
      of_built o (some e, r, u) k = absurd (ground (arith, ap (λ x. x.0) k))
      of_built o (none, r, u) k = sym (ap (λ b. b.original) (ok-injective (ap (λ x. x.0) k)))

      of_parsed :
          (bs : String) (x : Result Failure (List AddrPort)) (u : State)
          → parsed h fallback bs x u ≡ (ok d, t)
          → d.original ≡ some bs
      of_parsed bs (err e) u k = absurd (ground (arith, ap (λ x. x.0) k))
      of_parsed bs (ok servers) u k =
          of_built (some bs) (started (direct h none) servers fallback u) k

      read :
          (x : Result (FileError Failure) String × State)
          → h.read_file s ≡ x
          → read_original h fallback x ≡ (ok d, t)
          → d.original ≡ contents s
      read (ok bs, u) f k =
          of_parsed bs (resolvconf_nameservers h bs) u k ∙ sym (laws.read_ok s bs (ap (λ x. x.0) f))
      read (err not_exist, u) f k =
          of_built none (started (direct h none) [] fallback u) k
          ∙ sym (laws.read_absent s (ap (λ x. x.0) f))
      read (err (other_error e), u) f k = absurd (ground (arith, ap (λ x. x.0) k))

      refused :
          (o : Option (DnsError Failure))
          → unless_refused h o fallback s ≡ (ok d, t)
          → d.original ≡ contents s
      refused (some e) k = absurd (ground (arith, ap (λ x. x.0) k))
      refused none k = read (h.read_file s) refl k

  -- When NewDirect returns a provider, and later SetDNS of it succeeds, whatever the file and the
  -- provider's state are by then, and then UnsetDNS with no change of the file in between, the file is
  -- what it was before NewDirect: the same contents, or no file, given the laws of the file.
  pub new_direct-unset_dns :
      (contents : State → Option String)
      → FileLaws h contents
      → (has_listen has_dial : Bool) (fallback : List AddrPort) (d : Built h) (server : Addr)
        (r r' r'' : Provider) (s0 s1 s t u : State)
      → new_direct h has_listen has_dial fallback s0 ≡ (ok d, s1)
      → set_dns (direct h d.original) server r s ≡ (none, r', t)
      → unset_dns (direct h d.original) r' t ≡ ([], r'', u)
      → contents u ≡ contents s0
  new_direct-unset_dns contents laws has_listen has_dial fallback d server r r' r'' s0 s1 s t u b e
        f =
      set_dns-unset_dns contents laws d.original server r r' r'' s t u e f
      ∙ new_direct-original contents laws has_listen has_dial fallback d s0 s1 b
