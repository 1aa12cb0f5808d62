-- ===== src/Dns/Provider/Closes.antt =====
-- Close of a provider: what it leaves, and what later calls do.
use Prim.Native.String.{String}
use sysnet_linux.Base.{
  ◌≡◌, refl, true, false, not, ◌&&◌, List, [], ◌∷◌, Option, none, some, if-case, arith,
}
use sysnet_linux.Net.Addr.{Addr, is_valid}
use sysnet_linux.Dns.Provider.{
  Backend, Provider, DnsError, Outcome, Joined, set_dns, unset_dns, after_cleanup, close,
}

module _ (b : Backend) where
  open b use {State, Failure}

  -- Closed, with no client.
  abbrev pub IsShut : Provider → Type 0
  IsShut r = (r.closed ≡ true) × (r.client ≡ none)

  cleanup-IsShut :
      (c : Option (List String)) (r : Provider) (o : Option Failure × State)
      → IsShut r
      → IsShut (after_cleanup b c r o).1
  cleanup-IsShut c r (some e, s) h = h
  cleanup-IsShut c r (none, s) h = h

  close-IsShut :
      (r : Provider) (s : State) → (r.closed ≡ true → r.client ≡ none) → IsShut (close b r s).1
  unfolding close
  close-IsShut r s h =
      if-case (λ (x : Joined b). IsShut x.1) (r.closed && not r.active)
        (λ e. (closed_of e, h (closed_of e)))
        (λ _.
          if-case (λ (x : Joined b). IsShut x.1) r.active
            (λ _.
              cleanup-IsShut r.client (record r { closed = true; client = none }) (b.uninstall s)
                (refl, refl))
            (λ _. (refl, refl)))
    where
      closed_of : (r.closed && not r.active) ≡ true → r.closed ≡ true
      closed_of e = ground arith

  -- What later calls do, without a change.
  abbrev Refuses : Provider → State → Type 0
  Refuses r s =
      ((a : Addr) → is_valid a ≡ true → set_dns b a r s ≡ (some DnsError.closed_error, r, s))
      × (unset_dns b r s ≡ (DnsError.closed_error ∷ [], r, s))
      × (r.active ≡ false → close b r s ≡ ([], r, s))

  shut-Refuses : (r : Provider) (s : State) → r.closed ≡ true → Refuses r s
  unfolding set_dns unset_dns close
  shut-Refuses r s c = (
    λ a v.
        if-case (λ (x : Outcome b). x ≡ (some DnsError.closed_error, r, s)) (not (is_valid a))
          (λ e. absurd (ground arith))
          (λ _.
            if-case (λ (x : Outcome b). x ≡ (some DnsError.closed_error, r, s)) r.closed (λ _. refl)
              (λ e. absurd (ground arith))),
    if-case (λ (x : Joined b). x ≡ (DnsError.closed_error ∷ [], r, s)) r.closed (λ _. refl)
        (λ e. absurd (ground arith)),
    λ a.
        if-case (λ (x : Joined b). x ≡ ([], r, s)) (r.closed && not r.active) (λ _. refl)
          (λ e. absurd (ground arith)),
  )

  -- After Close of a provider that has no client if it was closed before, whatever fails, the
  -- provider is closed and has no client; SetDNS of a valid server and UnsetDNS are refused and
  -- change nothing; and if no server is managed any more, another Close succeeds and does nothing.
  pub close-Refuses :
      (r : Provider) (s : State)
      → (r.closed ≡ true → r.client ≡ none)
      → IsShut (close b r s).1 × Refuses (close b r s).1 (close b r s).2
  close-Refuses r s h =
      let i = close-IsShut r s h in (i, shut-Refuses (close b r s).1 (close b r s).2 i.0)
