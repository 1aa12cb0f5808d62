-- ===== src/Dns/Provider/Upstreams.antt =====
-- dns/resolved.go and dns/direct.go: what the lists of upstream servers hold.
use Prim.Native.String.{String}
use Prim.Native.String.{◌++◌ as ◌<>◌}
use text.Mathlib.Text.{◌==◌ as str_eq}
use text.Mathlib.TextEquality.{eq_iff}
use mathlib.Core.List.{Memᴰ}
use sysnet_linux.Base.{
  ◌≡◌, refl, inl, inr, Bool, true, false, not, ◌&&◌, List, [], ◌∷◌, any-false, Bool-cases, arith,
  mem-keep_if, mem-map_cases, List, keep_if,
}
use sysnet_linux.Base.Unseen.{mem-unseen}
use sysnet_linux.Net.Addr.{Addr, is_valid, addr_eq}
use sysnet_linux.Dns.Servers.{
  AddrPort, addr_port_eq, dedupe_servers, server_urls, addr_excluded, filter_addr, same_strings,
}
use sysnet_linux.Dns.Provider.{Provider, upstreams, or_fallback}

-- The URL of a server with another address.
abbrev pub IsUrlOfOther : (AddrPort → String) → Addr → String → Type 0
IsUrlOfOther print a u =
    (s : AddrPort) × (u ≡ "udp://" <> print s)
    × (is_valid s.addr ≡ true)
    × (addr_eq s.addr a ≡ false)

pub same_strings-eq : (as_ bs : List String) → same_strings as_ bs ≡ true → as_ ≡ bs
unfolding same_strings
same_strings-eq [] [] h = refl
same_strings-eq [] (b ∷ bs) h = absurd (ground arith)
same_strings-eq (a ∷ as_) [] h = absurd (ground arith)
same_strings-eq (a ∷ as_) (b ∷ bs) h = elim (Bool-cases (str_eq a b)) [
  | inl y ↦ λ i. (eq_iff a b).0 y i ∷ same_strings-eq as_ bs (rw y at h) i
  | inr n ↦ absurd (ground arith)
]

not_excluded :
    (s a : Addr) (exclude : List Addr)
    → Memᴰ a exclude
    → is_valid a ≡ true
    → addr_excluded s exclude ≡ false
    → addr_eq s a ≡ false
unfolding addr_excluded
not_excluded s a exclude m v h =
    ground (arith, any-false (λ c. is_valid c && addr_eq s c) exclude h m)

filter-other :
    (servers : List AddrPort) (exclude : List Addr) (a : Addr) (s : AddrPort)
    → Memᴰ a exclude
    → is_valid a ≡ true
    → Memᴰ s (filter_addr servers exclude)
    → addr_eq s.addr a ≡ false
unfolding filter_addr
filter-other servers [] a s m v k = elim m [ ]
filter-other servers (x ∷ exclude) a s m v k = not_excluded s.addr a (x ∷ exclude) m v (
    not-true (addr_excluded s.addr (x ∷ exclude))
      (mem-keep_if (λ t. not (addr_excluded t.addr (x ∷ exclude))) servers k).1)
  where
    not-true : (c : Bool) → not c ≡ true → c ≡ false
    not-true false h = refl
    not-true true h = absurd (ground arith)

upstreams-other :
    (r : Provider) (exclude : List Addr) (a : Addr) (s : AddrPort)
    → Memᴰ a exclude
    → is_valid a ≡ true
    → Memᴰ s (upstreams r exclude)
    → addr_eq s.addr a ≡ false
unfolding upstreams
upstreams-other r exclude a s m v k =
    of (filter_addr r.original_servers exclude)
      (λ l. filter-other r.original_servers exclude a s m v l) k
  where
    of :
        (xs : List AddrPort)
        → (Memᴰ s xs → addr_eq s.addr a ≡ false)
        → Memᴰ s (or_fallback xs (filter_addr r.fallback exclude))
        → addr_eq s.addr a ≡ false
    of [] h l = filter-other r.fallback exclude a s m v l
    of (x ∷ xs) h l = h l

-- No chosen server has an address that is excluded.
pub urls-other :
    (print : AddrPort → String) (r : Provider) (exclude : List Addr) (a : Addr) (u : String)
    → Memᴰ a exclude
    → is_valid a ≡ true
    → Memᴰ u (server_urls print (upstreams r exclude))
    → IsUrlOfOther print a u
unfolding server_urls dedupe_servers
urls-other print r exclude a u m v k =
    let (s, l, e) =
      mem-map_cases (λ t. "udp://" <> print t) (dedupe_servers (upstreams r exclude)) k in
    let d =
      mem-keep_if (λ t. is_valid t.addr) (upstreams r exclude)
        (mem-unseen addr_port_eq s [] (keep_if (λ t. is_valid t.addr) (upstreams r exclude)) l) in
    (s, e, d.1, upstreams-other r exclude a s m v d.0)
