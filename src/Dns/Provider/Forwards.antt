-- ===== src/Dns/Provider/Forwards.antt =====
-- A provider never forwards requests to the server that it manages.
use mathlib.Core.List.{Memᴰ}
use sysnet_linux.Base.{
  ◌≡◌, refl, sym, ap, true, false, not, ◌&&◌, List, [], ◌∷◌, Option, none, some, if-case, arith,
  subst, if◌then◌else◌,
}
use sysnet_linux.Net.Addr.{Addr, is_valid, addr_eq}
use sysnet_linux.Dns.Servers.{AddrPort}
use sysnet_linux.Dns.Provider.{
  Backend, Provider, Outcome, Joined, deactivated, refresh_upstreams, installed, install_after,
  set_dns, refreshed, forget, after_uninstall, unset_dns, after_cleanup, close, Call, run_call, run,
  new_provider, started,
}
use sysnet_linux.Dns.Provider.Refreshes.{Avoids, IsForwarding, Refreshes, refresh-Refreshes}

module _ (b : Backend) where
  open b use {State, Failure}

  set_dns-IsForwarding :
      (server : Addr) (r : Provider) (s : State)
      → IsForwarding b r
      → IsForwarding b (set_dns b server r s).1
  unfolding set_dns
  set_dns-IsForwarding server r s f =
      if-case (λ (x : Outcome b). IsForwarding b x.1) (not (is_valid server)) (λ _. f)
        (λ v.
          if-case (λ (x : Outcome b). IsForwarding b x.1) r.closed (λ _. f)
            (λ _.
              of (valid v)
                (refresh_upstreams b (server ∷ (if r.active then r.managed ∷ [] else [])) r s)
                (refresh-Refreshes b (server ∷ (if r.active then r.managed ∷ [] else [])) r f
                  managed_mem s)))
    where
      valid : not (is_valid server) ≡ false → is_valid server ≡ true
      valid h = ground arith

      managed_mem :
          r.active ≡ true → Memᴰ r.managed (server ∷ (if r.active then r.managed ∷ [] else []))
      managed_mem a =
          Memᴰ.tail (
            subst (λ t. Memᴰ r.managed (if t then r.managed ∷ [] else [])) (sym a) (Memᴰ.head refl))

      installs :
          (r' : Provider) (o : Option Failure × State)
          → is_valid server ≡ true
          → IsForwarding b r'
          → Avoids b server r'
          → IsForwarding b (installed b server r' o).1
      installs r' (some e, t) v g h = g
      installs r' (none, t) v g h = record {
        signed = g.signed;
        managed_valid = λ _. v;
        avoids = λ _. h;
      }

      of :
          is_valid server ≡ true
          → (x : Outcome b) → Refreshes b (server ∷ (if r.active then r.managed ∷ [] else [])) r x
          → IsForwarding b (install_after b server x).1
      of v (some e, r', t) g = g.forwarding
      of v (none, r', t) g =
          installs r' (b.install server t) v g.forwarding (g.avoids refl server (Memᴰ.head refl) v)

  deactivated-IsForwarding : (r : Provider) → IsForwarding b r → IsForwarding b (deactivated r)
  deactivated-IsForwarding r f = record {
    signed = f.signed;
    managed_valid = λ h. absurd (ground arith);
    avoids = λ h. absurd (ground arith);
  }

  unset_dns-IsForwarding :
      (r : Provider) (s : State) → IsForwarding b r → IsForwarding b (unset_dns b r s).1
  unfolding unset_dns
  unset_dns-IsForwarding r s f =
      if-case (λ (x : Joined b). IsForwarding b x.1) r.closed (λ _. f)
        (λ _.
          if-case (λ (x : Joined b). IsForwarding b x.1) (not r.active) (λ _. f)
            (λ _. of (b.uninstall s)))
    where
      forgets : (r' : Provider) → IsForwarding b r' → IsForwarding b (forget b r.managed r')
      forgets r' g =
          if-case (IsForwarding b) (r'.active && addr_eq r'.managed r.managed)
            (λ _. deactivated-IsForwarding r' g) (λ _. g)

      refreshes :
          (o : Option Failure) (x : Outcome b)
          → Refreshes b (r.managed ∷ []) r x
          → IsForwarding b (refreshed b r.managed o x).1
      refreshes none (none, r', t) g = forgets r' g.forwarding
      refreshes (some e) (none, r', t) g = g.forwarding
      refreshes none (some e, r', t) g = g.forwarding
      refreshes (some x) (some e, r', t) g = g.forwarding

      of : (x : Option Failure × State) → IsForwarding b (after_uninstall b r x).1
      of (o, t) =
          refreshes o (refresh_upstreams b (r.managed ∷ []) r t)
            (refresh-Refreshes b (r.managed ∷ []) r f (λ a. Memᴰ.head refl) t)

  close-IsForwarding :
      (r : Provider) (s : State) → IsForwarding b r → IsForwarding b (close b r s).1
  unfolding close
  close-IsForwarding r s f =
      if-case (λ (x : Joined b). IsForwarding b x.1) (r.closed && not r.active) (λ _. f)
        (λ _.
          if-case (λ (x : Joined b). IsForwarding b x.1) r.active (λ _. of (b.uninstall s))
            (λ _. shut))
    where
      shut : IsForwarding b (record r { closed = true; client = none })
      shut = record {
        signed = λ urls h. absurd (ground arith);
        managed_valid = f.managed_valid;
        avoids = λ h urls c. absurd (ground arith);
      }

      of :
          (x : Option Failure × State)
          → IsForwarding b
              (after_cleanup b r.client (record r { closed = true; client = none }) x).1
      of (some e, t) = shut
      of (none, t) = deactivated-IsForwarding _ shut

  run_call-IsForwarding :
      (c : Call) (r : Provider) (s : State) → IsForwarding b r → IsForwarding b (run_call b c r s).0
  run_call-IsForwarding (Call.set_server a) r s f = set_dns-IsForwarding a r s f
  run_call-IsForwarding Call.unset r s f = unset_dns-IsForwarding r s f
  run_call-IsForwarding Call.close_it r s f = close-IsForwarding r s f

  run-IsForwarding :
      (calls : List Call) (r : Provider) (s : State)
      → IsForwarding b r
      → IsForwarding b (run b calls r s).0
  run-IsForwarding [] r s f = f
  run-IsForwarding (c ∷ cs) r s f =
      run-IsForwarding cs (run_call b c r s).0 (run_call b c r s).1 (run_call-IsForwarding c r s f)

  -- After any sequence of SetDNS, UnsetDNS and Close, whatever they answer, on a provider that was
  -- constructed, the client forwards to no server whose address is the one that is managed.
  pub run-Avoids :
      (original fallback : List AddrPort) (calls : List Call) (s t : State) (r : Provider)
      → started b original fallback s ≡ (none, r, t)
      → (run b calls r t).0.active ≡ true
      → Avoids b (run b calls r t).0.managed (run b calls r t).0
  unfolding started
  run-Avoids original fallback calls s t r h a =
      (run-IsForwarding calls r t (
          subst (IsForwarding b) (ap (λ x. x.1) h)
            (refresh-Refreshes b [] (new_provider original fallback) fresh
              (λ e. absurd (ground arith)) s).forwarding)).avoids
        a
    where
      fresh : IsForwarding b (new_provider original fallback)
      fresh = record {
        signed = λ urls c. absurd (ground arith);
        managed_valid = λ e. absurd (ground arith);
        avoids = λ e. absurd (ground arith);
      }
