-- ===== src/Datacenter.antt =====
-- crates/waf-core/src/datacenter.rs: the address blocks of hosting providers, as text, and the test of an address
-- against them. The engine takes the parsed list as a field of `Env`.
use t1_waf.Prelude.{Text, text, nat_eq, text_eq, length, ℕ, Bool, none, some, List, [], ◌∷◌, ◌++◌}
use t1_waf.Request.{IpAddr}
use t1_waf.Net.{NetApi, any_contains}

-- OVH
unfoldable pub ovh_blocks : List Text
ovh_blocks =
    text "5.39.0.0/17"
    ∷ text "5.135.0.0/16"
    ∷ text "5.196.0.0/15"
    ∷ text "37.59.0.0/16"
    ∷ text "37.187.0.0/16"
    ∷ text "46.105.0.0/16"
    ∷ text "51.38.0.0/16"
    ∷ text "51.68.0.0/16"
    ∷ text "51.75.0.0/16"
    ∷ text "51.77.0.0/16"
    ∷ text "51.83.0.0/16"
    ∷ text "51.89.0.0/16"
    ∷ text "51.91.0.0/16"
    ∷ text "51.222.0.0/16"
    ∷ text "54.36.0.0/14"
    ∷ text "92.222.0.0/16"
    ∷ text "94.23.0.0/16"
    ∷ text "146.59.0.0/16"
    ∷ text "147.135.0.0/16"
    ∷ text "149.202.0.0/16"
    ∷ text "151.80.0.0/16"
    ∷ text "164.132.0.0/16"
    ∷ text "167.114.0.0/16"
    ∷ text "176.31.0.0/16"
    ∷ text "178.32.0.0/15"
    ∷ text "188.165.0.0/16"
    ∷ text "192.95.0.0/16"
    ∷ text "192.99.0.0/16"
    ∷ text "198.27.64.0/18"
    ∷ text "213.32.0.0/16"
    ∷ text "213.186.32.0/19"
    ∷ text "213.251.128.0/18"
    ∷ []

-- Hetzner
unfoldable pub hetzner_blocks : List Text
hetzner_blocks =
    text "5.9.0.0/16"
    ∷ text "23.88.0.0/17"
    ∷ text "37.27.0.0/16"
    ∷ text "46.4.0.0/16"
    ∷ text "65.108.0.0/16"
    ∷ text "78.46.0.0/16"
    ∷ text "78.47.0.0/16"
    ∷ text "88.99.0.0/16"
    ∷ text "94.130.0.0/16"
    ∷ text "95.216.0.0/16"
    ∷ text "116.202.0.0/16"
    ∷ text "135.181.0.0/16"
    ∷ text "136.243.0.0/16"
    ∷ text "138.201.0.0/16"
    ∷ text "144.76.0.0/16"
    ∷ text "148.251.0.0/16"
    ∷ text "157.90.0.0/16"
    ∷ text "159.69.0.0/16"
    ∷ text "162.55.0.0/16"
    ∷ text "168.119.0.0/16"
    ∷ text "176.9.0.0/16"
    ∷ text "188.40.0.0/16"
    ∷ text "195.201.0.0/16"
    ∷ text "213.133.96.0/20"
    ∷ text "213.239.192.0/18"
    ∷ []

-- DigitalOcean
unfoldable pub digitalocean_blocks : List Text
digitalocean_blocks =
    text "104.131.0.0/16"
    ∷ text "104.236.0.0/16"
    ∷ text "138.197.0.0/16"
    ∷ text "138.68.0.0/16"
    ∷ text "139.59.0.0/16"
    ∷ text "143.110.144.0/20"
    ∷ text "143.198.0.0/16"
    ∷ text "146.190.0.0/16"
    ∷ text "157.230.0.0/16"
    ∷ text "157.245.0.0/16"
    ∷ text "159.65.0.0/16"
    ∷ text "159.89.0.0/16"
    ∷ text "159.203.0.0/16"
    ∷ text "162.243.0.0/16"
    ∷ text "165.227.0.0/16"
    ∷ text "167.71.0.0/16"
    ∷ text "167.99.0.0/16"
    ∷ text "174.138.0.0/17"
    ∷ text "188.166.0.0/16"
    ∷ text "192.81.208.0/20"
    ∷ text "198.199.64.0/18"
    ∷ text "206.81.0.0/19"
    ∷ text "207.154.192.0/18"
    ∷ []

-- Vultr
unfoldable pub vultr_blocks : List Text
vultr_blocks =
    text "8.9.4.0/24"
    ∷ text "45.32.0.0/16"
    ∷ text "45.63.0.0/16"
    ∷ text "45.76.0.0/16"
    ∷ text "45.77.0.0/16"
    ∷ text "63.209.32.0/19"
    ∷ text "64.176.0.0/15"
    ∷ text "66.42.32.0/19"
    ∷ text "70.34.192.0/18"
    ∷ text "95.179.128.0/17"
    ∷ text "104.156.224.0/19"
    ∷ text "104.207.128.0/17"
    ∷ text "104.238.128.0/18"
    ∷ text "108.61.0.0/16"
    ∷ text "136.244.64.0/18"
    ∷ text "139.180.128.0/18"
    ∷ text "140.82.0.0/18"
    ∷ text "144.202.0.0/16"
    ∷ text "149.28.0.0/16"
    ∷ text "149.248.0.0/16"
    ∷ text "155.138.128.0/17"
    ∷ text "207.148.0.0/18"
    ∷ text "208.85.16.0/20"
    ∷ text "209.222.16.0/20"
    ∷ []

-- Linode / Akamai
unfoldable pub linode_akamai_blocks : List Text
linode_akamai_blocks =
    text "23.92.16.0/20"
    ∷ text "23.239.0.0/17"
    ∷ text "45.33.0.0/17"
    ∷ text "45.56.64.0/18"
    ∷ text "45.79.0.0/16"
    ∷ text "50.116.0.0/18"
    ∷ text "66.175.208.0/20"
    ∷ text "69.164.192.0/19"
    ∷ text "72.14.176.0/20"
    ∷ text "74.207.224.0/19"
    ∷ text "96.126.96.0/19"
    ∷ text "97.107.128.0/19"
    ∷ text "103.3.60.0/22"
    ∷ text "104.200.16.0/20"
    ∷ text "109.74.192.0/19"
    ∷ text "139.144.0.0/16"
    ∷ text "139.162.0.0/16"
    ∷ text "143.42.0.0/16"
    ∷ text "162.216.16.0/22"
    ∷ text "172.104.0.0/15"
    ∷ text "172.232.0.0/13"
    ∷ text "173.230.128.0/19"
    ∷ text "173.255.192.0/18"
    ∷ text "176.58.96.0/19"
    ∷ text "178.79.128.0/18"
    ∷ text "192.46.208.0/20"
    ∷ text "192.81.128.0/18"
    ∷ text "192.155.80.0/20"
    ∷ text "194.195.112.0/20"
    ∷ text "198.58.96.0/19"
    ∷ text "212.71.232.0/21"
    ∷ []

-- AWS (a representative slice; AWS publishes the full list)
unfoldable pub aws_blocks : List Text
aws_blocks =
    text "3.0.0.0/15"
    ∷ text "3.2.0.0/16"
    ∷ text "3.4.0.0/16"
    ∷ text "3.5.0.0/16"
    ∷ text "13.32.0.0/15"
    ∷ text "13.34.0.0/15"
    ∷ text "13.52.0.0/15"
    ∷ text "15.177.0.0/16"
    ∷ text "18.130.0.0/16"
    ∷ text "18.156.0.0/14"
    ∷ text "18.196.0.0/15"
    ∷ text "34.192.0.0/12"
    ∷ text "35.71.64.0/22"
    ∷ text "35.155.0.0/16"
    ∷ text "35.180.0.0/16"
    ∷ text "44.192.0.0/11"
    ∷ text "52.0.0.0/11"
    ∷ text "52.32.0.0/11"
    ∷ text "52.64.0.0/12"
    ∷ text "52.84.0.0/15"
    ∷ text "54.64.0.0/13"
    ∷ text "54.144.0.0/12"
    ∷ text "54.176.0.0/12"
    ∷ text "54.192.0.0/12"
    ∷ text "54.208.0.0/13"
    ∷ text "54.216.0.0/14"
    ∷ text "54.224.0.0/12"
    ∷ text "54.240.0.0/12"
    ∷ text "100.20.0.0/14"
    ∷ text "184.169.128.0/17"
    ∷ []

-- GCP (representative slice)
unfoldable pub gcp_blocks : List Text
gcp_blocks =
    text "8.34.208.0/20"
    ∷ text "23.236.48.0/20"
    ∷ text "23.251.128.0/19"
    ∷ text "34.0.0.0/15"
    ∷ text "34.64.0.0/10"
    ∷ text "35.184.0.0/13"
    ∷ text "35.192.0.0/14"
    ∷ text "35.196.0.0/15"
    ∷ text "35.198.0.0/16"
    ∷ text "35.199.0.0/17"
    ∷ text "104.154.0.0/15"
    ∷ text "104.196.0.0/14"
    ∷ text "107.167.160.0/19"
    ∷ text "107.178.192.0/18"
    ∷ text "108.59.80.0/20"
    ∷ text "130.211.0.0/16"
    ∷ text "146.148.0.0/17"
    ∷ text "162.216.148.0/22"
    ∷ text "199.192.112.0/22"
    ∷ text "199.223.232.0/21"
    ∷ text "208.68.108.0/22"
    ∷ []

-- Azure (representative slice)
unfoldable pub azure_blocks : List Text
azure_blocks =
    text "13.64.0.0/11"
    ∷ text "13.96.0.0/13"
    ∷ text "13.104.0.0/14"
    ∷ text "20.0.0.0/8"
    ∷ text "23.96.0.0/13"
    ∷ text "40.64.0.0/10"
    ∷ text "52.96.0.0/12"
    ∷ text "52.112.0.0/14"
    ∷ text "65.52.0.0/14"
    ∷ text "70.37.0.0/17"
    ∷ text "94.245.64.0/18"
    ∷ text "104.40.0.0/13"
    ∷ text "138.91.0.0/16"
    ∷ text "168.61.0.0/16"
    ∷ text "168.62.0.0/15"
    ∷ text "191.232.0.0/13"
    ∷ text "207.46.0.0/16"
    ∷ []

-- `RAW`
unfoldable pub raw : List Text
raw =
    ovh_blocks
    ++ (hetzner_blocks
        ++ (digitalocean_blocks
            ++ (vultr_blocks
                ++ (linode_akamai_blocks ++ (aws_blocks ++ (gcp_blocks ++ (azure_blocks)))))))

module _ (api : NetApi) where
  open api use {Net, parse}

  -- the texts that parse
  unfoldable pub parse_some : List Text → List Net
  parse_some [] = []
  parse_some (s ∷ ss) =
      let rest = parse_some ss in elim (parse s) [ none ↦ rest | some n ↦ n ∷ rest ]

  -- `NETS`, `is_datacenter` and `prefix_count`
  unfoldable pub nets : List Net
  nets = parse_some raw

  unfoldable pub is_datacenter : IpAddr → Bool
  is_datacenter ip = any_contains api nets ip

  unfoldable pub prefix_count : ℕ
  prefix_count = length nets
