-- ===== src/Dns/Servers.antt =====
-- dns/resolved.go: the lists of upstream servers that the providers share.
use Prim.Native.String.{String}
use Prim.Native.String.{◌++◌ as ◌<>◌}
use text.Mathlib.Text.{◌==◌ as str_eq}
use sysnet_linux.Base.{ℕ, ◌==◌, Bool, true, false, not, ◌&&◌, List, [], ◌∷◌, map, any, keep_if}
use sysnet_linux.Base.Unseen.{unseen}
use sysnet_linux.Net.Addr.{Addr, is_valid, addr_eq}

-- netip.AddrPort.
pub record AddrPort : Type 0 where
  pub addr : Addr
  pub port : ℕ

unfoldable pub addr_port_eq : AddrPort → AddrPort → Bool
addr_port_eq a b = addr_eq a.addr b.addr && a.port == b.port

unfoldable pub dedupe_servers : List AddrPort → List AddrPort
dedupe_servers servers = unseen addr_port_eq [] (keep_if (λ s. is_valid s.addr) servers)

-- serverURLs, with AddrPort.String.
unfoldable pub server_urls : (AddrPort → String) → List AddrPort → List String
server_urls print servers = map (λ s. "udp://" <> print s) (dedupe_servers servers)

unfoldable pub addr_excluded : Addr → List Addr → Bool
addr_excluded a exclude = any (λ c. is_valid c && addr_eq a c) exclude

unfoldable pub filter_addr : List AddrPort → List Addr → List AddrPort
filter_addr servers [] = servers
filter_addr servers (x ∷ exclude) = keep_if (λ s. not (addr_excluded s.addr (x ∷ exclude))) servers

unfoldable pub same_strings : List String → List String → Bool
same_strings [] [] = true
same_strings (a ∷ as_) (b ∷ bs) = let rest = same_strings as_ bs in str_eq a b && rest
same_strings _ _ = false
