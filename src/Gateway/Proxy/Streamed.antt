-- ===== src/Gateway/Proxy/Streamed.antt =====
-- identity-gateway/aw_gateway/proxy.py, `proxy_to_tenant`: where a streamed answer comes from.
use canvas_watcher.Base.{
  ◌&&◌, any, text_beq, ◌≢◌, ℕ, ◌≤◌, true, false, none, some, List, [], ◌∷◌, ◌++◌, Text, codes,
  text_eq, nat_eq, arith, leb, All, if◌then◌else◌, select, lower, starts_with, Option-cases,
  Bool-cases, inl, inr, ◌≡◌, refl, sym, ap, ◌∙◌, ◌⊎◌, All-map,
}
use canvas_watcher.Gateway.Proxy.Config.{
  GatewayConfig, File, socket_path, token_path, decimal, load_tenant_token,
}
use canvas_watcher.Gateway.Proxy.Forward
use canvas_watcher.Gateway.Proxy.Forward.{
  Header, Incoming, Outgoing, Upstream, Outside, drop_request, drop_response, among, passes, after,
  removeprefix, headers, own_headers, Target, bad_slot, not_ready, at, target, tenant_url, streamed,
  proxy_to_tenant, kept_headers, has_content,
}

-- A path of the tenant, with a query where there is one.
abbrev pub address_of : Text → Text → Text
address_of path [] = codes "http://tenant" ++ path
address_of path (c ∷ q) = codes "http://tenant" ++ path ++ codes "?" ++ c ∷ q

module _ (out : Outside) (cfg : GatewayConfig) where
  -- The paths of a slot's socket and secret.
  abbrev pub socket_of : ℕ → Text
  socket_of slot = cfg.socket_root ++ (codes "/t" ++ (decimal slot ++ codes "/api.sock"))

  abbrev pub token_file_of : ℕ → Text
  token_file_of slot = cfg.token_root ++ codes "/tenant-" ++ decimal slot ++ codes ".token"

  -- The one request that a streamed answer comes from.
  pub record Sent (slot : ℕ) (req : Incoming) (up : Upstream) : Type 0 where
    pub token : Text
    pub token_file : File
    pub to : Text
    pub answer : Upstream
    pub of_slots : (1 ≤ slot) × (slot ≤ cfg.slots)
    pub there : out.is_socket (socket_of slot) ≡ true
    pub kept : out.file (token_file_of slot) ≡ some token_file
    pub loaded : load_tenant_token token_file ≡ some token
    pub of_api : starts_with (removeprefix cfg.base_path req.path) (codes "/api/") ≡ true
    pub address : to ≡ address_of (removeprefix cfg.base_path req.path) req.query
    pub sent :
        out.send (socket_of slot) (record {
          method = req.method;
          url = to;
          headers = headers out cfg token req;
          body = if has_content out cfg req.method then some req.body else none;
        })
        ≡ some answer
    pub shown : up ≡ record answer { headers = up.headers }
    pub clean :
        All
          (λ h. (lower h.name ≢ codes "set-cookie") × (lower h.name ≢ codes "content-length"))
          up.headers

  kept_clean :
      (hs : List Header)
      → All
          (λ h. among drop_response (lower h.name) ≡ false)
          (kept_headers out cfg drop_response hs)
  unfolding select
  kept_clean [] = tt
  kept_clean (h ∷ hs) = elim (Bool-cases (among drop_response (lower h.name))) [
    | inl e ↦ rw e (kept_clean hs)
    | inr e ↦ rw e (e, kept_clean hs)
  ]

  target_cases :
      (t : Target) → (t ≡ bad_slot) ⊎ ((t ≡ not_ready) ⊎ ((p : Text × Text) × (t ≡ at p.0 p.1)))
  target_cases bad_slot = inl refl
  target_cases not_ready = inr (inl refl)
  target_cases (at socket token) = inr (inr ((socket, token), refl))

  target_at :
      (slot : ℕ) (socket token : Text)
      → target out cfg slot ≡ at socket token
      → (f : File) × ((1 ≤ slot) × (slot ≤ cfg.slots))
        × (socket ≡ socket_of slot)
        × (out.is_socket (socket_of slot) ≡ true)
        × (out.file (token_file_of slot) ≡ some f)
        × (load_tenant_token f ≡ some token)
  unfolding target socket_path token_path
  target_at slot socket token h = elim (Bool-cases (leb 1 slot && leb slot cfg.slots)) [
    | inr e ↦ absurd (ground (arith, e, h))
    | inl e ↦ elim (Option-cases (out.file (token_file_of slot))) [
      | inl e1 ↦ absurd (ground (arith, e, e1, h))
      | inr (f, e1) ↦ elim (Option-cases (load_tenant_token f)) [
        | inl e2 ↦ absurd (ground (arith, e, e1, e2, h))
        | inr (t, e2) ↦ (
          f,
          (ground (arith, e), ground (arith, e)),
          ground (arith, e, e1, e2, h),
          ground (arith, e, e1, e2, h),
          e1,
          ground (arith, e, e1, e2, h),
        )
      ]
    ]
  ]

  url_address :
      (req : Incoming) (to : Text)
      → tenant_url out cfg none req ≡ some to
      → (starts_with (removeprefix cfg.base_path req.path) (codes "/api/") ≡ true)
        × (to ≡ address_of (removeprefix cfg.base_path req.path) req.query)
  unfolding tenant_url
  url_address req to h =
      let canonical : starts_with (removeprefix cfg.base_path req.path) (codes "/api/") ≡ true =
        ground (arith, h) in
      (canonical, asked req.query (ground (arith, h, canonical)))
    where
      asked :
          (q : Text)
          → some (
              Forward.with_query out cfg
                (codes "http://tenant" ++ removeprefix cfg.base_path req.path)
                q)
            ≡ some to
          → to ≡ address_of (removeprefix cfg.base_path req.path) q
      asked [] e = cc e
      asked (c ∷ q) e = cc e

  kept_names :
      (hs : List Header)
      → All (λ h. among drop_response (lower h.name) ≡ false) hs
      → All (λ h. (lower h.name ≢ codes "set-cookie") × (lower h.name ≢ codes "content-length")) hs
  unfolding among any text_beq
  kept_names hs k =
      All-map hs
        (λ h e. (
          λ s. absurd (cc (sym e ∙ ap (among drop_response) s)),
          λ s. absurd (cc (sym e ∙ ap (among drop_response) s)),
        ))
        k

  -- Where the proxy streams an answer to the browser, that is the answer of the socket of the slot,
  -- one of the configured slots, to one request, which carries the token of the slot's own file, under
  -- the address of the tenant's API that the browser asked for, with its query; and it sets no cookie
  -- of the browser.
  pub streamed-Sent :
      (slot : ℕ) (req : Incoming) (up : Upstream)
      → proxy_to_tenant out cfg slot req ≡ streamed up
      → Sent slot req up
  unfolding proxy_to_tenant
  streamed-Sent slot req up h = elim (target_cases (target out cfg slot)) [
    | inl e ↦ ground (arith, e, h)
    | inr (inl e) ↦ ground (arith, e, h)
    | inr (inr ((socket, token), e)) ↦ elim (Option-cases (tenant_url out cfg none req)) [
      | inl e1 ↦ ground (arith, e, e1, h)
      | inr (to, e1) ↦
          let o : Outgoing = record {
            method = req.method;
            url = to;
            headers = headers out cfg token req;
            body = if has_content out cfg req.method then some req.body else none;
          } in
          let (f, slots, same, there, kept, loaded) = target_at slot socket token e in
          let (canonical, address) = url_address req to e1 in
          elim (Option-cases (out.send socket o)) [
            | inl e2 ↦ ground (arith, e, e1, e2, h)
            | inr (answer, e2) ↦
                let shown : up ≡ record answer {
                  headers = kept_headers out cfg drop_response answer.headers;
                } =
                  ground (arith, e, e1, e2, h) in
                record {
                  token = token;
                  token_file = f;
                  to = to;
                  answer = answer;
                  of_slots = slots;
                  there = there;
                  kept = kept;
                  loaded = loaded;
                  of_api = canonical;
                  address = address;
                  sent = rw⁻¹ same e2;
                  shown = ground (arith, shown);
                  clean = rw shown (kept_names _ (kept_clean answer.headers));
                }
          ]
    ]
  ]
