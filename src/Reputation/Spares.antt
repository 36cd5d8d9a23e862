-- ===== src/Reputation/Spares.antt =====
-- What an offence or a ban of one address leaves alone: the lists, and the entries of the other addresses.
use t1_waf.Prelude.{nat_eq, text_eq, ℕ, ◌≡◌, refl, ◌∙◌, Bool, false, arith}
use t1_waf.Prelude.Cases.{if-ind}
use t1_waf.Prelude.Assoc.{lookup, insert, lookup-insert}
use t1_waf.Request.{IpAddr, ip_eq}
use t1_waf.Net.{NetApi}
use t1_waf.Reputation.{HitState, Reputations, refused, record_offence, force_ban}

-- the lists are the same, and so are the entries of all addresses but one
pub record Spares {Net : Type 0} (ip : IpAddr) (r r' : Reputations Net) : Type 0 where
  pub same_allow : r'.allow ≡ r.allow
  pub others : (jp : IpAddr) → ip_eq.beq ip jp ≡ false → lookup jp r'.state ≡ lookup jp r.state

pub Spares-here : {Net : Type 0} (ip : IpAddr) (r : Reputations Net) → Spares ip r r
Spares-here ip r = record { same_allow = refl; others = λ jp o. refl }

pub Spares-trans :
    {Net : Type 0} (ip : IpAddr) (a b c : Reputations Net)
    → Spares ip a b
    → Spares ip b c
    → Spares ip a c
Spares-trans ip a b c f g = record {
  same_allow = g.same_allow ∙ f.same_allow;
  others = λ jp o. g.others jp o ∙ f.others jp o;
}

module _ (api : NetApi) where
  open api use {Net}

  Spares-insert :
      (r : Reputations Net) (ip : IpAddr) (s : HitState)
      → Spares ip r (record r { state = insert ip s r.state })
  Spares-insert r ip s = record {
    same_allow = refl;
    others = λ jp o. ground (arith, o, lookup-insert ip jp s r.state);
  }

  pub Spares-record_offence :
      (r : Reputations Net) (ip : IpAddr) (now : ℕ) → Spares ip r (record_offence api r ip now).0
  unfolding record_offence
  Spares-record_offence r ip now =
      if-ind (λ (out : Reputations Net × Bool). Spares ip r out.0) (refused api r ip)
        (λ no_room. Spares-here ip r) (λ room. Spares-insert r ip _)

  pub Spares-force_ban :
      (r : Reputations Net) (ip : IpAddr) (secs now : ℕ)
      → Spares ip r (force_ban api r ip secs now).0
  unfolding force_ban
  Spares-force_ban r ip secs now =
      if-ind (λ (out : Reputations Net × Bool). Spares ip r out.0) (refused api r ip)
        (λ no_room. Spares-here ip r) (λ room. Spares-insert r ip _)
