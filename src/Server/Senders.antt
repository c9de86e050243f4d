-- ===== src/Server/Senders.antt =====
-- Who sends a request, and that `Protect` finds it out.
use Prim.Native.String
use mathlib.Core.Path.{fun_ext}
use test_lintaspay_backend.Common.{String, ◌≡◌, refl, ap, subst, sym}
use test_lintaspay_backend.Reqctx.{with_user}
use test_lintaspay_backend.External.{Services, Result, ok, err, Method, hmac, other, TokenClaims}
use test_lintaspay_backend.Middlewares as Middlewares
use test_lintaspay_backend.Middlewares.{Session, key_func, protect_token, text_or_empty}
use test_lintaspay_backend.Middlewares.Access.{Protected, protect-Protected}
use test_lintaspay_backend.Middlewares.Issued.{strip_prefix-append}
use test_lintaspay_backend.Server.{Request, Exchange}
use test_lintaspay_backend.Server.Decisions.{role_of, secret_for, Brings, Sender}

module _ ⦃g : Services⦄ where
  key_func-eq : key_func g.env_jwt_secret ≡ secret_for
  unfolding key_func
  key_func-eq = fun_ext same
    where
      same : (m : Method) → key_func g.env_jwt_secret m ≡ secret_for m
      same hmac = refl
      same other = refl

  module _ (req : Request) (c : Exchange g) where
    pub brings :
        (token : String) (claims : TokenClaims)
        → req.authorization ≡ String.◌++◌ "Bearer " token
        → (g.parse_with_claims token (key_func g.env_jwt_secret) c.world.host).0 ≡ ok claims
        → Brings req c claims
    brings token claims h p = (token, h, rw key_func-eq at p)

    -- A token that is accepted gets through.
    Brings-protect :
        (claims : TokenClaims)
        → Brings req c claims
        → (s : Session) × ((Middlewares.protect req.authorization c.session c.world).0 ≡ ok s)
    unfolding Middlewares.protect
    Brings-protect claims (token, h, p) =
        let stripped = strip_prefix-append "Bearer " token in
        let parsed : (g.parse_with_claims token (key_func g.env_jwt_secret) c.world.host).0
            ≡ ok claims =
          rw key_func-eq p in
        rw (h, stripped, parsed) (_, refl)

    pub protect-Sender :
        Sender req c (role_of (Middlewares.protect req.authorization c.session c.world).0)
    unfolding with_user
    protect-Sender = go _ refl (protect-Protected req.authorization c.session c.world)
      where
        go :
            (r : Result Session)
            → (Middlewares.protect req.authorization c.session c.world).0 ≡ r
            → Protected req.authorization c.session r c.world
            → Sender req c (role_of r)
        go (ok s) e (token, claims, h, p, _, locals) =
            subst (Sender req c) (sym (ap (λ l. l.role_value) locals))
              (claims, brings token claims h p, refl)
        go (err x) e h = λ (claims, b). let (s, q) = Brings-protect claims b in cc
