-- ===== src/Net.antt =====
-- CIDR blocks. The `ipnet` crate and the parsers of `std::net` are not part of the repository: their
-- types and functions are the fields of `NetApi`, which the development takes as a parameter.
-- `parse_net` of crates/waf-core/src/runtime.rs, and its copy in reputation.rs, is modelled.
use t1_waf.Prelude.{
  Text, nat_eq, text_eq, Eq, if◌then◌else◌, ℕ, Bool, false, ◌||◌, Option, none, some, List, [], ◌∷◌,
}
use t1_waf.Request.{IpAddr, is_ipv4}

pub record NetApi : Type 1 where
  pub Net : Type 0
  -- `IpNet::contains`
  pub contains : Net → IpAddr → Bool
  -- `IpNet::new`, `str::parse::<IpNet>`, `IpNet::to_string`
  pub new : IpAddr → ℕ → Option Net
  pub parse : Text → Option Net
  pub show : Net → Text
  -- `==`
  pub net_eq : Eq Net
  -- `IpAddr::from_str`
  pub parse_ip : Text → Option IpAddr

module _ (api : NetApi) where
  open api use {Net, contains, new, parse, parse_ip}

  -- `parse_net`: a bare address stands for the block of that address alone
  unfoldable pub parse_net : Text → Option Net
  parse_net s = elim (parse_ip s) [
    | some ip ↦ new ip (if is_ipv4 ip then 32 else 128)
    | none ↦ parse s
  ]

  -- `nets.iter().any(|n| n.contains(&ip))`
  unfoldable pub any_contains : List Net → IpAddr → Bool
  any_contains [] ip = false
  any_contains (n ∷ ns) ip = contains n ip || any_contains ns ip
