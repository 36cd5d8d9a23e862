-- ===== src/Admin/Routes/Refusal.antt =====
-- A call that is refused changes nothing.
use t1_waf.Prelude.{Text, text, text_beq, nat_eq, text_eq, ℕ, ◌≡◌, refl, ◌≢◌, ◌⊎◌, Option}
use t1_waf.Prelude.Assoc.{lookup}
use t1_waf.Prelude.Cases.{if-ind, option-ind, sum-ind}
use t1_waf.Engine.{Env}
use t1_waf.Runtime.{Runtime, add_allow, add_deny, remove_allow, remove_deny}
use t1_waf.Admin.{ParsedReq}
use t1_waf.Admin.Patch.{Patch}
use t1_waf.Admin.Routes.{
  Site, Response, ok_json, no_content, set_runtime, with_cidr, lift_ban, route_post, route_api,
  addr_of, calls,
}

module _ (env : Env) (parse_patch : Text → Text ⊎ Patch) where
  open env use {net}

  -- an answer that does not say 200 or 204 has left the site as it was
  abbrev Quiet : Site env parse_patch → Site env parse_patch × Response → Type 0
  Quiet s out = out.1.status ≢ 200 → out.1.status ≢ 204 → out.0 ≡ s

  set_runtime-Quiet :
      (s : Site env parse_patch) (req : ParsedReq) → Quiet s (set_runtime env parse_patch s req)
  unfolding set_runtime ok_json
  set_runtime-Quiet s req =
      sum-ind (Quiet s) (parse_patch req.body) (λ e _. λ no _. refl)
        (λ p _. λ no _. absurd (no refl))

  with_cidr-Quiet :
      (s : Site env parse_patch) (req : ParsedReq)
      (f : Runtime net.Net → Text → Option (Runtime net.Net))
      → Quiet s (with_cidr env parse_patch s req f)
  unfolding with_cidr no_content
  with_cidr-Quiet s req f =
      option-ind (Quiet s) (lookup (text "cidr") req.query) (λ _. λ no _. refl)
        (λ c _.
          option-ind (Quiet s) (f s.proxy.engine.runtime c) (λ _. λ no _. refl)
            (λ r _. λ _ no. absurd (no refl)))

  lift_ban-Quiet :
      (s : Site env parse_patch) (req : ParsedReq) → Quiet s (lift_ban env parse_patch s req)
  unfolding lift_ban no_content
  lift_ban-Quiet s req =
      option-ind (Quiet s) (addr_of env parse_patch req) (λ _. λ no _. refl)
        (λ ip _. λ _ no. absurd (no refl))

  route_post-Quiet :
      (s : Site env parse_patch) (req : ParsedReq) → Quiet s (route_post env parse_patch s req)
  unfolding route_post ok_json
  route_post-Quiet s req =
      let Q = Quiet s in
      if-ind Q (calls req (text "/api/runtime")) (λ _. set_runtime-Quiet s req)
        (λ _.
          if-ind Q (calls req (text "/api/uam")) (λ _. λ no _. absurd (no refl))
            (λ _.
              if-ind Q (calls req (text "/api/under_attack")) (λ _. λ no _. absurd (no refl))
                (λ _.
                  if-ind Q (calls req (text "/api/ip/allow"))
                    (λ _. with_cidr-Quiet s req (add_allow net))
                    (λ _.
                      if-ind Q (calls req (text "/api/ip/deny"))
                        (λ _. with_cidr-Quiet s req (add_deny net))
                        (λ _.
                          if-ind Q (calls req (text "/api/ip/unallow"))
                            (λ _. with_cidr-Quiet s req (remove_allow net))
                            (λ _.
                              if-ind Q (calls req (text "/api/ip/undeny"))
                                (λ _. with_cidr-Quiet s req (remove_deny net))
                                (λ _.
                                  if-ind Q (calls req (text "/api/unban"))
                                    (λ _. lift_ban-Quiet s req) (λ _. λ no _. refl))))))))

  -- A call of the interface that is not answered with 200 or 204 changes nothing: neither the settings nor
  -- the traps, the bans or the file.
  pub route_api-refused :
      (s : Site env parse_patch) (req : ParsedReq) (now : ℕ)
      → (route_api env parse_patch s req now).1.status ≢ 200
      → (route_api env parse_patch s req now).1.status ≢ 204
      → (route_api env parse_patch s req now).0 ≡ s
  unfolding route_api
  route_api-refused s req now =
      if-ind (Quiet s) (text_beq req.method (text "GET")) (λ _. λ no _. refl)
        (λ _.
          if-ind (Quiet s) (text_beq req.method (text "POST")) (λ _. route_post-Quiet s req)
            (λ _. λ no _. refl))
