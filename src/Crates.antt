-- ===== src/Crates.antt =====
-- The third-party code that the program calls, as parameters: the crates `url` and `ipnet`. A
-- client takes the record as an instance argument. The types that these crates hand back are
-- written out, because the program takes them apart.
use proxy_watch.Prelude.{ℕ, Bool, Option}
use proxy_watch.Prelude.Result.{Result}
use proxy_watch.Text.{Text}
use proxy_watch.Text.Address.{IpAddr}

-- `url::Host`
pub data Host : Type 0 where
  domain : Text → Host
  ipv4 ipv6 : ℕ → Host

-- `url::Url`, by the answers of the accessors that the program calls.
pub record Url : Type 0 where
  pub scheme : Text
  pub host : Option Host
  pub port : Option ℕ
  pub port_or_known_default : Option ℕ
  pub as_str : Text

-- `ipnet::IpNet`: an address and a prefix length.
pub data IpNet : Type 0 where
  net4 net6 : ℕ → ℕ → IpNet

pub record Crates : Type 0 where
  -- `url::Url::parse`, with its error as a text
  pub url_parse : Text → Result Text Url
  -- `url::Host::parse`
  pub host_parse : Text → Option Host
  -- `IpNet::from_str`, `IpNet::new`, `IpNet::trunc().addr()`, `IpNet::contains`
  pub net_parse : Text → Option IpNet
  pub net_new : IpAddr → ℕ → Option IpNet
  pub net_trunc : IpNet → IpAddr
  pub net_contains : IpNet → IpAddr → Bool
