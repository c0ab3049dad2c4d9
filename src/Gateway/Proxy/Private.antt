-- ===== src/Gateway/Proxy/Private.antt =====
-- What a tenant is told by the gateway alone, and what it cannot answer to a browser.
use canvas_watcher.Base.{
  any, text_beq, ℕ, ◌≤◌, ◌+◌, Bool, true, false, ◌||◌, some, List, [], ◌∷◌, ◌++◌, Text, codes, ◌==◌,
  text_eq, nat_eq, arith, ltb, leb, length, All, if◌then◌else◌, select, lower, starts_with,
  Bool-cases, inl, inr, ◌≡◌, refl, sym, ap, ◌∙◌, any-false, All-map, text_beq_iff,
}
use mathlib.Core.Path.{subst}
use canvas_watcher.Gateway.Proxy.Config.{
  GatewayConfig, File, accepted, Origin, socket_path, decimal, digits, load_tenant_token,
  strip_bytes,
}
use canvas_watcher.Gateway.Proxy.Forward.{
  Header, Incoming, Outside, drop_request, among, passes, after, headers, own_headers,
}

-- The names by which a browser could pass for the gateway, another user or slot, or hand on its own
-- credentials. X-Real-IP is none of them.
abbrev private_names : List Text
private_names =
    codes "x-aw-internal-token"
    ∷ codes "x-aw-user"
    ∷ codes "x-aw-slot"
    ∷ codes "x-aw-identity"
    ∷ codes "x-aw-csrf"
    ∷ codes "cookie"
    ∷ codes "authorization"
    ∷ codes "host"
    ∷ []

abbrev pub is_private : Text → Bool
is_private n = any (λ m. m == n) private_names || starts_with n (codes "x-forwarded-")

select-append :
    {A : Type 0} (p : A → Bool) (xs ys : List A) → select p (xs ++ ys) ≡ select p xs ++ select p ys
unfolding select
select-append p [] ys = refl
select-append p (x ∷ xs) ys = ground (arith, select-append p xs ys)

among_all :
    (n : Text) (ms : List Text)
    → All (λ m. among drop_request m ≡ true) ms
    → any (λ m. m == n) ms ≡ true
    → among drop_request n ≡ true
unfolding any
among_all n [] k h = cc h
among_all n (m ∷ ms) k h = elim (Bool-cases (m == n)) [
  | inl e ↦ subst (λ x. among drop_request x ≡ true) ((text_beq_iff m n).0 e) k.0
  | inr e ↦ among_all n ms k.1 (ground (arith, e, h))
]

names_dropped : All (λ m. among drop_request m ≡ true) private_names
unfolding among any text_beq
names_dropped = (refl, (refl, (refl, (refl, (refl, (refl, (refl, (refl, tt))))))))

private_passes :
    (n : Text) (h : Header) → is_private n ≡ true → (lower h.name == n) ≡ true → passes h ≡ false
unfolding passes
private_passes n h e k =
    let same = (text_beq_iff (lower h.name) n).0 k in
    elim (Bool-cases (starts_with n (codes "x-forwarded-"))) [
      | inl f ↦ ground (arith, same, f)
      | inr f ↦ ground (arith, same, among_all n private_names names_dropped (ground (arith, e, f)))
    ]

none_pass :
    (n : Text) (hs : List Header)
    → is_private n ≡ true
    → select (λ h. lower h.name == n) (select (λ h. passes h) hs) ≡ []
unfolding select
none_pass n [] e = refl
none_pass n (h ∷ hs) e = elim (Bool-cases (lower h.name == n)) [
  | inl k ↦ ground (arith, k, none_pass n hs e, private_passes n h e k)
  | inr k ↦ ground (arith, k, none_pass n hs e)
]

three :
    (x y z : Header) (a b c : Bool)
    → (let zs = if c then z ∷ [] else [] in
        let ys = if b then y ∷ zs else zs in if a then x ∷ ys else ys)
      ≡ (if a then x ∷ [] else []) ++ ((if b then y ∷ [] else []) ++ (if c then z ∷ [] else []))
three x y z true true c = refl
three x y z true false c = refl
three x y z false true c = refl
three x y z false false c = refl

module _ (out : Outside) (cfg : GatewayConfig) where
  -- What the tenant is told under a name, of what names the gateway and the user.
  abbrev pub told : Text → Text → List Header
  told token n =
      (if codes "host" == n
        then record { name = codes "host"; content = after (codes "://") cfg.public_origin } ∷ []
        else [])
      ++ ((if codes "x-forwarded-proto" == n
            then record {
              name = codes "x-forwarded-proto";
              content = if cfg.development then codes "http" else codes "https";
            }
              ∷ []
            else [])
          ++ (if codes "x-aw-internal-token" == n
              then record { name = codes "x-aw-internal-token"; content = token } ∷ []
              else []))

  own_told :
      (token n : Text) → select (λ h. lower h.name == n) (own_headers out cfg token) ≡ told token n
  unfolding select lower
  own_told token n =
      three _ _ _ (codes "host" == n) (codes "x-forwarded-proto" == n)
        (codes "x-aw-internal-token" == n)

  -- Under a name by which a browser could pass for the gateway, for another user or slot, or hand on
  -- its own credentials, a tenant gets the public host, the scheme and the token that `_headers` is
  -- given, as the gateway writes them, and nothing else, whatever the browser sent under that name, in
  -- upper or lower case.
  pub select-headers :
      (token n : Text) (req : Incoming)
      → is_private n ≡ true
      → select (λ h. lower h.name == n) (headers out cfg token req) ≡ told token n
  unfolding headers
  select-headers token n req e = ground (
    arith,
    none_pass n req.headers e,
    own_told token n,
    select-append (λ h. lower h.name == n) (select (λ h. passes h) req.headers)
        (own_headers out cfg token),
  )

-- A number below ten is one digit.
digit : (n : ℕ) → leb n 9 ≡ true → decimal n ≡ (48 + n) ∷ []
unfolding decimal digits
digit n h = ground (arith, h)

append_cancel : (root s t : Text) → root ++ s ≡ root ++ t → s ≡ t
append_cancel [] s t h = h
append_cancel (c ∷ root) s t h = append_cancel root s t (cc h)

path_of :
    (cfg : GatewayConfig) (s : ℕ) (path : Text)
    → cfg.slots ≤ 5
    → socket_path cfg s ≡ some path
    → path ≡ cfg.socket_root ++ (codes "/t" ++ (48 + s) ∷ codes "/api.sock")
unfolding socket_path
path_of cfg s path five h =
    let small : leb s 9 ≡ true = ground (arith, five, h) in
    let e : path ≡ cfg.socket_root ++ (codes "/t" ++ (decimal s ++ codes "/api.sock")) =
      ground (arith, h) in
    e ∙ ap (λ d. cfg.socket_root ++ (codes "/t" ++ (d ++ codes "/api.sock"))) (digit s small)

third :
    {s t : ℕ}
    → codes "/t" ++ (48 + s) ∷ codes "/api.sock" ≡ codes "/t" ++ (48 + t) ∷ codes "/api.sock"
    → s ≡ t
third {s = s} {t = t} h = let k : 48 + s ≡ 48 + t = cc h in omega (arith, k)

-- In a configuration that is accepted, two slots that have a socket each have a socket of their
-- own.
pub socket_path-slot :
    (origin : Origin) (cfg : GatewayConfig) (s t : ℕ) (path : Text)
    → accepted origin cfg ≡ true
    → socket_path cfg s ≡ some path
    → socket_path cfg t ≡ some path
    → s ≡ t
unfolding accepted socket_path
socket_path-slot origin cfg s t path a h k =
    let five : cfg.slots ≤ 5 = ground (arith, a) in
    let same =
      append_cancel cfg.socket_root (codes "/t" ++ (48 + s) ∷ codes "/api.sock")
        (codes "/t" ++ (48 + t) ∷ codes "/api.sock")
        (sym (path_of cfg s path five h) ∙ path_of cfg t path five k) in
    third same

-- A tenant's token has 32 to 256 characters, each of them visible, so that it cannot end its header.
pub load_tenant_token-visible :
    (f : File) (token : Text)
    → load_tenant_token f ≡ some token
    → (32 ≤ length token) × (length token ≤ 256) × All (λ c. (33 ≤ c) × (c ≤ 126)) token
unfolding load_tenant_token
load_tenant_token-visible f token h =
    let k : token ≡ strip_bytes f.bytes = ground (arith, h) in
    (
      ground (arith, h, k),
      ground (arith, h, k),
      rw k (
          All-map (strip_bytes f.bytes) (λ c e. (ground (arith, e), ground (arith, e)))
            (any-false (λ byte. ltb byte 33 || ltb 126 byte) (strip_bytes f.bytes)
              (ground (arith, h)))),
    )
