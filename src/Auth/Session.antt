-- ===== src/Auth/Session.antt =====
-- What a token that `Login` hands out is good for, and what `Parse` has checked of one it accepts.
use Prim.Native.String.{String}
use gb_522_l7o.Prelude.{
  ℕ, ◌+◌, ◌≤◌, ◌<◌, ◌≡◌, refl, sym, subst, ap, ◌∙◌, true, Bool-cases, Option, none, some, get_elem?,
  arith, inl, inr,
}
use gb_522_l7o.Errors.{Error, ok}
use gb_522_l7o.Model.{User}
use gb_522_l7o.Algorithm.Detect.Pipeline.{Result-cases}
use gb_522_l7o.Database.{World, Env, M, IsTable, ◌>>=◌, pure, on_error, now, lift, yield_to_others}
use gb_522_l7o.Cases.Inversion.{>>=-inv, on_error-inv, pure-ok, raise-inv, ok-injective, err-not_ok}
use gb_522_l7o.Auth.{
  SigningMethod, LoginRequest, LoginResponse, Claims, hs256, other_method, AuthService, Crypto,
  IsJwt, second, key_of, has_id, find_by_id, view_of, if_right, new_claims, issue, login,
  token_claims, parse,
}

abbrev pub stamp_user : ℕ → ℕ → User → User
stamp_user n t u = record u { id = n; created_at = t }

module _ {F : Type 0} where
  abbrev pub IsUserEnv : Env F → Type 0
  IsUserEnv env = IsTable env.users (λ u. u.id) stamp_user (λ t u. u)

  -- What is current when a token is accepted: its signature and its times, and the account it is for.
  pub record IsAccepted (crypto : Crypto) (auth : AuthService) (env : Env F) (token : String)
      (w : World F) (claims : Claims) : Type 0 where
    pub signed : crypto.is_signed hs256 auth.secret token ≡ true
    pub started : claims.not_before ≤ w.clock
    pub running : w.clock < claims.expires_at
    pub user : User
    pub row : ℕ
    pub current : get_elem? (env.others w).users row ≡ some user
    pub active : user.active ≡ true
    pub for_user : claims.user_id ≡ user.id
    pub named : claims.username ≡ user.username
    pub in_role : claims.role ≡ user.role

module _ {F : Type 0} (crypto : Crypto) (auth : AuthService) (env : Env F) where
  signed_by :
      (token : String) (method : SigningMethod) (key : String)
      → key_of auth method ≡ ok key
      → crypto.is_signed method key token ≡ true
      → crypto.is_signed hs256 auth.secret token ≡ true
  signed_by token hs256 key e h =
      subst (λ k. crypto.is_signed hs256 k token ≡ true) {x = key} (sym (ok-injective _ _ e)) h
  signed_by token (other_method name) key e h = absurd (err-not_ok _ key e)

  token_claims-inv :
      (token : String) (w : World F) (claims : Claims)
      → (token_claims crypto auth env token w).0 ≡ ok claims
      → (crypto.parse w.clock token (key_of auth) ≡ ok (true, claims))
        × ((token_claims crypto auth env token w).1 ≡ w)
  unfolding token_claims
  token_claims-inv token w claims h =
      elim (Result-cases (crypto.parse w.clock token (key_of auth))) [
        | inl ((valid, parsed), e) ↦ elim (Bool-cases valid) [
          | inl yes_valid ↦ ground arith
          | inr no_valid ↦ absurd (ground arith)
        ]
        | inr (e, q) ↦ absurd (ground arith)
      ]

  find_by_id-inv :
      (id : ℕ) (w : World F) (user : User)
      → IsUserEnv env
      → (find_by_id env id w).0 ≡ ok user
      → (i : ℕ) × (get_elem? w.users i ≡ some user) × (user.id ≡ id) × (user.active ≡ true)
  unfolding find_by_id
  find_by_id-inv id w user laws h =
      elim (Result-cases (env.users.first w.clock (has_id id) w.users)) [
        | inl (found, e) ↦
            let (i, at, meets) = laws.first_ok w.clock (has_id id) w.users found e in
            let same : found ≡ user = ground arith in
            subst (λ u. (i : ℕ) × (get_elem? w.users i ≡ some u) × (u.id ≡ id) × (u.active ≡ true))
              same (i, at, ground arith, ground arith)
        | inr (e, q) ↦ absurd (ground arith)
      ]

  -- When `Parse` accepts a token, the token is signed by HS256 with the secret of the service and its
  -- time has come and has not passed; and the row of its user, read then, is of an active account, whose
  -- name and role the claims that it returns carry.
  pub parse-IsAccepted :
      (token : String) (w : World F) (claims : Claims)
      → IsJwt crypto
      → IsUserEnv env
      → (parse crypto auth env token w).0 ≡ ok claims
      → IsAccepted crypto auth env token w claims
  unfolding parse yield_to_others
  parse-IsAccepted token w claims jwt laws h =
      let (carried, parsed, rest, _) = >>=-inv _ _ w claims h in
      let (accepted, same) = token_claims-inv token w carried parsed in
      let (u, _, rest2, _) = >>=-inv (yield_to_others env) _ _ claims rest in
      let (user, read, last, _) = >>=-inv _ _ _ claims rest2 in
      let made = pure-ok _ claims _ last in
      let (method, key, key_is, signed, started, running) =
        jwt.verified w.clock token (key_of auth) carried accepted in
      let (i, at, for_user, active) =
        find_by_id-inv carried.user_id _ user laws (on_error-inv _ _ _ user read) in
      record {
        signed = signed_by token method key key_is signed;
        started = subst (λ c. c.not_before ≤ w.clock) made started;
        running = subst (λ c. w.clock < c.expires_at) made running;
        user = user;
        row = i;
        current = subst (λ v. get_elem? (env.others v).users i ≡ some user) same at;
        active = active;
        for_user = ap (λ c. c.user_id) (sym made) ∙ sym for_user;
        named = ap (λ c. c.username) (sym made);
        in_role = ap (λ c. c.role) (sym made);
      }

  issue-inv :
      (user : User) (w : World F) (response : LoginResponse)
      → (issue crypto auth env user w).0 ≡ ok response
      → let expires = (env.others w).clock + auth.ttl in
        (crypto.sign hs256 auth.secret (new_claims crypto auth env user w.clock expires)
          ≡ ok response.token)
        × (response.expires_at ≡ expires)
        × (response.user.id ≡ user.id)
        × ((issue crypto auth env user w).1 ≡ env.others w)
  unfolding issue yield_to_others lift now ◌>>=◌ on_error pure
  issue-inv user w response h =
      let expires = (env.others w).clock + auth.ttl in
      let claims = new_claims crypto auth env user w.clock expires in
      elim (Result-cases (crypto.sign hs256 auth.secret claims)) [
        | inl (token, e) ↦
            let made : LoginResponse = record {
              token = token;
              expires_at = expires;
              user = view_of crypto auth env user;
            } in
            let same = ok-injective made response (ground (arith, e)) in
            (
              e ∙ ap (λ r. ok r.token) same,
              ap (λ r. r.expires_at) (sym same),
              ap (λ r. r.user.id) (sym same),
              ground (arith, e),
            )
        | inr (e, q) ↦ absurd (ground arith)
      ]

  if_right-inv :
      {A : Type 0} (outcome : Option Error) (m : M F A) (w : World F) (a : A)
      → (if_right outcome m w).0 ≡ ok a
      → ((m w).0 ≡ ok a) × ((if_right outcome m w).1 ≡ (m w).1)
  if_right-inv (some e) m w a h = absurd (raise-inv _ w a h)
  if_right-inv none m w a h = (h, refl)

  -- A login that succeeds has issued a token to a user at some time.
  login-inv :
      (request : LoginRequest) (w : World F) (response : LoginResponse)
      → (login crypto auth env request w).0 ≡ ok response
      → (user : User) × (v : World F) × ((issue crypto auth env user v).0 ≡ ok response)
        × ((login crypto auth env request w).1 ≡ (issue crypto auth env user v).1)
  unfolding login
  login-inv request w response h =
      let (u, _, rest, left) = >>=-inv (yield_to_others env) _ w response h in
      let (user, read, rest2, left2) = >>=-inv _ _ _ response rest in
      let (issued, left3) = if_right-inv _ (issue crypto auth env user) _ response rest2 in
      (user, _, issued, left ∙ left2 ∙ left3)

  parse-run :
      (token : String) (w : World F) (claims : Claims) (user : User)
      → crypto.parse w.clock token (key_of auth) ≡ ok (true, claims)
      → (find_by_id env claims.user_id (env.others w)).0 ≡ ok user
      → (parse crypto auth env token w).0
        ≡ ok (record claims { username = user.username; role = user.role })
  unfolding parse token_claims yield_to_others ◌>>=◌ on_error pure
  parse-run token w claims user accepted found = ground (arith, accepted, found)

  -- A session: after a login that succeeds, and until a second before the time that it tells, `Parse`
  -- accepts the token for the same user, under the name and role that the account has by then, as long
  -- as the account is found. The clock does not go back.
  pub login-parse :
      (request : LoginRequest) (w later : World F) (response : LoginResponse) (user : User)
      → IsJwt crypto
      → ((v : World F) → v.clock ≤ (env.others v).clock)
      → (login crypto auth env request w).0 ≡ ok response
      → (login crypto auth env request w).1.clock ≤ later.clock
      → later.clock + second ≤ response.expires_at
      → (find_by_id env response.user.id (env.others later)).0 ≡ ok user
      → (claims : Claims) × ((parse crypto auth env response.token later).0 ≡ ok claims)
        × (claims.user_id ≡ response.user.id)
        × (claims.username ≡ user.username)
        × (claims.role ≡ user.role)
  login-parse request w later response user jwt onward h after before found =
      let (owner, v, issued, left) = login-inv request w response h in
      let (signed, ends, for_owner, left2) = issue-inv owner v response issued in
      let claims = new_claims crypto auth env owner v.clock ((env.others v).clock + auth.ttl) in
      let clock = ap (λ x. x.clock) (left ∙ left2) in
      let accepted =
        jwt.accepted later.clock hs256 auth.secret response.token claims (key_of auth) signed refl
          (omega (arith, jwt.date_before v.clock, onward v))
          (omega (arith, jwt.date_after ((env.others v).clock + auth.ttl))) in
      (
        record claims { username = user.username; role = user.role },
        parse-run response.token later claims user accepted
            (subst (λ n. (find_by_id env n (env.others later)).0 ≡ ok user) for_owner found),
        sym for_owner,
        refl,
        refl,
      )
