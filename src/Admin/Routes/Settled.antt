-- ===== src/Admin/Routes/Settled.antt =====
-- The settings stay in range, and the file agrees with them.
use t1_waf.Runtime.{drop_net}
use t1_waf.Runtime.{push_net}
use t1_waf.Strings.{upper_byte}
use t1_waf.Prelude.{
  Text, text, text_beq, nat_eq, text_eq, or_else, ℕ, ◌≤◌, ◌≡◌, refl, ap, subst, ◌⊎◌, true, Bool,
  ◌&&◌, Option, none, some, List, [], ◌∷◌, map, arith,
}
use t1_waf.Prelude.Assoc.{lookup}
use t1_waf.Prelude.Cases.{if-ind, option-ind, sum-ind}
use t1_waf.Strings.{uppercase}
use t1_waf.Engine.{Env}
use t1_waf.Proxy.{Proxy}
use t1_waf.Runtime.{
  Runtime, PersistedRuntime, persisted, add_allow, add_deny, remove_allow, remove_deny,
}
use t1_waf.Runtime.Restart.{IsValid}
use t1_waf.Net.{parse_net}
use t1_waf.Admin.{ParsedReq}
use t1_waf.Admin.Patch.{Patch, apply_patch}
use t1_waf.Admin.Routes.{
  Site, Response, set_runtime, with_cidr, lift_ban, route_post, route_api, level_of, is_on, calls,
  persist, with_runtime, addr_of,
}

upper_byte_idem : (b : ℕ) → upper_byte (upper_byte b) ≡ upper_byte b
upper_byte_idem b = ground arith

uppercase_idem : (s : Text) → uppercase (uppercase s) ≡ uppercase s
unfolding uppercase
uppercase_idem [] = refl
uppercase_idem (b ∷ s) = rw (upper_byte_idem b) (ap (λ z. upper_byte b ∷ z) (uppercase_idem s))

map-uppercase_idem : (ss : List Text) → map uppercase (map uppercase ss) ≡ map uppercase ss
map-uppercase_idem [] = refl
map-uppercase_idem (s ∷ ss) = rw (uppercase_idem s, map-uppercase_idem ss) refl

apply_patch-IsValid :
    {Net : Type 0} (p : Patch) (r : Runtime Net) → IsValid r → IsValid (apply_patch p r)
unfolding apply_patch
apply_patch-IsValid p r h = record {
  level = option-ind (λ v. v ≤ 4) p.uam_level (λ _. h.level) (λ v _. omega arith);
  mode = option-ind (λ v. v ≤ 2) p.challenge_mode (λ _. h.mode) (λ v _. omega arith);
  capitals =
      option-ind (λ v. map uppercase v ≡ v) p.blocked_countries (λ _. h.capitals)
        (λ c _. map-uppercase_idem c);
  token = h.token;
}

level_of-le : (req : ParsedReq) → level_of req ≤ 4
unfolding level_of
level_of-le req =
    if-ind (λ v. v ≤ 4) (is_on req (text "panic")) (λ _. omega arith)
      (λ _.
        option-ind (λ v. v ≤ 4) (lookup (text "level") req.query) (λ _. omega arith)
          (λ t _. omega arith))

module _ (env : Env) (parse_patch : Text → Text ⊎ Patch) where
  open env use {net}

  -- The file holds valid settings, and if no write has failed, those of now.
  abbrev pub InFile : Bool → Site env parse_patch → Type 0
  InFile up s =
      (r : Runtime net.Net) × IsValid r
      × (s.file ≡ some (persisted net r))
      × (up ≡ true → r ≡ s.proxy.engine.runtime)

  -- The settings are valid, the disk works if it has always worked, and a file that is bound is as it
  -- should be.
  pub record IsSettled (up : Bool) (s : Site env parse_patch) : Type 0 where
    pub valid : IsValid s.proxy.engine.runtime
    pub works : up ≡ true → s.disk ≡ true
    pub saved : s.bound ≡ true → InFile up s

  pub persist-IsSettled :
      (up : Bool) (s : Site env parse_patch) (p : Proxy env)
      → IsSettled up s
      → IsValid p.engine.runtime
      → IsSettled up (persist env parse_patch (record s { proxy = p }))
  unfolding persist
  persist-IsSettled up s p h v = record {
    valid = v;
    works = h.works;
    saved = λ on.
        let new = some (persisted net p.engine.runtime) in
        let In = λ (f : Option PersistedRuntime).
          (r : Runtime net.Net) × IsValid r
          × (f ≡ some (persisted net r))
          × (up ≡ true → r ≡ p.engine.runtime) in
        if-ind In (s.bound && s.disk) {x = new} {y = s.file}
          (λ done. (p.engine.runtime, v, refl, λ _. refl))
          (λ failed.
            let (r, valid, held, same) = h.saved on in
            (r, valid, held, λ always. absurd (ground (arith, on, failed, h.works always))));
  }

  abbrev Settles : Bool → Site env parse_patch × Response → Type 0
  Settles up out = IsSettled up out.0

  set_runtime-IsSettled :
      (up : Bool) (s : Site env parse_patch) (req : ParsedReq)
      → IsSettled up s
      → Settles up (set_runtime env parse_patch s req)
  unfolding set_runtime with_runtime
  set_runtime-IsSettled up s req h =
      sum-ind (Settles up) (parse_patch req.body) (λ e _. h)
        (λ p _. persist-IsSettled up s _ h (apply_patch-IsValid p s.proxy.engine.runtime h.valid))

  -- the operations on the lists change nothing else
  abbrev KeepsValid : (Runtime net.Net → Text → Option (Runtime net.Net)) → Type 0
  KeepsValid f = (r r' : Runtime net.Net) (c : Text) → f r c ≡ some r' → IsValid r → IsValid r'

  with_cidr-IsSettled :
      (up : Bool) (s : Site env parse_patch) (req : ParsedReq)
      (f : Runtime net.Net → Text → Option (Runtime net.Net))
      → KeepsValid f
      → IsSettled up s
      → Settles up (with_cidr env parse_patch s req f)
  unfolding with_cidr with_runtime
  with_cidr-IsSettled up s req f keeps h =
      option-ind (Settles up) (lookup (text "cidr") req.query) (λ _. h)
        (λ c _.
          option-ind (Settles up) (f s.proxy.engine.runtime c) (λ _. h)
            (λ r done. persist-IsSettled up s _ h (keeps s.proxy.engine.runtime r c done h.valid)))

  lift_ban-IsSettled :
      (up : Bool) (s : Site env parse_patch) (req : ParsedReq)
      → IsSettled up s
      → Settles up (lift_ban env parse_patch s req)
  unfolding lift_ban
  lift_ban-IsSettled up s req h =
      option-ind (Settles up) (addr_of env parse_patch req) (λ _. h)
        (λ ip _. record { valid = h.valid; works = h.works; saved = h.saved })

  -- a change that a parsed block makes
  changed-IsValid :
      (r r' : Runtime net.Net) (c : Text) (g : net.Net → Runtime net.Net)
      → ((n : net.Net) → IsValid (g n))
      → elim (parse_net net c) [ none ↦ none | some n ↦ some (g n) ] ≡ some r'
      → IsValid r'
  changed-IsValid r r' c g keeps =
      option-ind (λ (out : Option (Runtime net.Net)). out ≡ some r' → IsValid r') (parse_net net c)
        (λ _ e. absurd (ground arith)) (λ n _ e. subst IsValid (ap (λ o. or_else o r) e) (keeps n))

  -- new lists of blocks
  relisted-IsValid :
      (r : Runtime net.Net) (allow deny : List net.Net)
      → IsValid r
      → IsValid (record r { allow = allow; deny = deny })
  relisted-IsValid r allow deny h = record {
    level = h.level;
    mode = h.mode;
    capitals = h.capitals;
    token = h.token;
  }

  add_allow-IsValid : KeepsValid (add_allow net)
  unfolding add_allow
  add_allow-IsValid r r' c done h =
      changed-IsValid r r' c _ (λ n. relisted-IsValid r (push_net net n r.allow) r.deny h) done

  add_deny-IsValid : KeepsValid (add_deny net)
  unfolding add_deny
  add_deny-IsValid r r' c done h =
      changed-IsValid r r' c _ (λ n. relisted-IsValid r r.allow (push_net net n r.deny) h) done

  remove_allow-IsValid : KeepsValid (remove_allow net)
  unfolding remove_allow
  remove_allow-IsValid r r' c done h =
      changed-IsValid r r' c _ (λ n. relisted-IsValid r (drop_net net n r.allow) r.deny h) done

  remove_deny-IsValid : KeepsValid (remove_deny net)
  unfolding remove_deny
  remove_deny-IsValid r r' c done h =
      changed-IsValid r r' c _ (λ n. relisted-IsValid r r.allow (drop_net net n r.deny) h) done

  route_post-IsSettled :
      (up : Bool) (s : Site env parse_patch) (req : ParsedReq)
      → IsSettled up s
      → Settles up (route_post env parse_patch s req)
  unfolding route_post with_runtime
  route_post-IsSettled up s req h =
      let cidr = λ (f : Runtime net.Net → Text → Option (Runtime net.Net)) (keeps : KeepsValid f).
        with_cidr-IsSettled up s req f keeps h in
      let v = h.valid in
      if-ind (Settles up) (calls req (text "/api/runtime")) (λ _. set_runtime-IsSettled up s req h)
        (λ _.
          if-ind (Settles up) (calls req (text "/api/uam"))
            (λ _. persist-IsSettled up s _ h (record {
              level = level_of-le req;
              mode = v.mode;
              capitals = v.capitals;
              token = v.token;
            }))
            (λ _.
              if-ind (Settles up) (calls req (text "/api/under_attack"))
                (λ _. persist-IsSettled up s _ h (record {
                  level = v.level;
                  mode = v.mode;
                  capitals = v.capitals;
                  token = v.token;
                }))
                (λ _.
                  if-ind (Settles up) (calls req (text "/api/ip/allow"))
                    (λ _. cidr (add_allow net) add_allow-IsValid)
                    (λ _.
                      if-ind (Settles up) (calls req (text "/api/ip/deny"))
                        (λ _. cidr (add_deny net) add_deny-IsValid)
                        (λ _.
                          if-ind (Settles up) (calls req (text "/api/ip/unallow"))
                            (λ _. cidr (remove_allow net) remove_allow-IsValid)
                            (λ _.
                              if-ind (Settles up) (calls req (text "/api/ip/undeny"))
                                (λ _. cidr (remove_deny net) remove_deny-IsValid)
                                (λ _.
                                  if-ind (Settles up) (calls req (text "/api/unban"))
                                    (λ _. lift_ban-IsSettled up s req h) (λ _. h))))))))

  -- Every call of the interface keeps the settings valid, and the file in step with them while writes succeed.
  pub route_api-IsSettled :
      (up : Bool) (s : Site env parse_patch) (req : ParsedReq) (now : ℕ)
      → IsSettled up s
      → IsSettled up (route_api env parse_patch s req now).0
  unfolding route_api
  route_api-IsSettled up s req now h =
      if-ind (Settles up) (text_beq req.method (text "GET")) (λ _. h)
        (λ _.
          if-ind (Settles up) (text_beq req.method (text "POST"))
            (λ _. route_post-IsSettled up s req h) (λ _. h))
