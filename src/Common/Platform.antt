-- ===== src/Common/Platform.antt =====
-- What the programs take from Go's packages `net/netip` and `unicode`: the address tables and the
-- case tables are not part of the repository, so they are parameters.
use Prim.Native.Nat.{ℕ}
use mathlib.Core.Bool.{Bool}
use mathlib.Core.Option.{Option}
use prism_panel.Common.Text.{Text}

pub record Platform : Type 0 where
  -- `netip.ParseAddr`, then `Unmap` and `String`; `none` for an error
  pub canonical_ip : Text → Option Text
  -- `unicode.ToUpper` and `unicode.ToLower`
  pub upper : ℕ → ℕ
  pub lower : ℕ → ℕ

-- What the programs read off a `netip.Addr` and a `netip.Prefix`.
pub record Addr : Type 0 where
  pub text : Text
  pub is4 : Bool
  pub loopback : Bool
  pub unspecified : Bool

pub record Prefix : Type 0 where
  pub addr : Addr
  pub bits : ℕ
  pub text : Text

pub record NetIp : Type 0 where
  pub parse_addr : Text → Option Addr
  -- `Addr.Unmap`
  pub unmap : Addr → Addr
  -- `netip.PrefixFrom(address, address.BitLen())`
  pub host_prefix : Addr → Prefix
  -- `netip.ParsePrefix`, then `Masked`
  pub parse_prefix : Text → Option Prefix
  -- `Prefix.Contains` and `Addr.Compare(…) < 0`
  pub holds : Prefix → Addr → Bool
  pub addr_less : Addr → Addr → Bool
