-- ===== src/Routers/EmailLinks/Sound.antt =====
-- A link does something only for a token that is consumed with its purpose.
use clean_architecture_saas.Prelude.{
  ℕ, String, ◌≡◌, refl, sym, ◌∙◌, subst, inl, inr, Bool, true, false, Option, none, some, arith,
  ◌==◌, Bool-cases, nat_eq,
}
use clean_architecture_saas.Python.Exec.{Result, ok, raised, Result-cases, ◌>>=◌}
use clean_architecture_saas.Python.Int.{ℤ, pos, negsuc}
use clean_architecture_saas.Python.Value.{Value, flag, dict, truthy, end, field, get_field, or_nul}
use clean_architecture_saas.Domain.Audit.{AuditAction, AuditResource, log_audit_event}
use clean_architecture_saas.Domain.Auth.{Conversions, str_of}
use clean_architecture_saas.Domain.User.{User}
use clean_architecture_saas.Access.Permissions.{user_at}
use clean_architecture_saas.Access.RateLimit.{Caller, require_rate_limit}
use clean_architecture_saas.Tokens.EmailTokens.{TokenData}
use clean_architecture_saas.Users.Service.{EmailTokenRepository}
use clean_architecture_saas.Routers.Auth.{Deps, origin}
use clean_architecture_saas.Routers.EmailLinks.{
  Reply, page, json, LinkRequest, opened, posted, Link, follow, with_token, with_data, with_user,
  has_purpose, verification, is_get, verify_email, mark_verified,
}

-- Whether the link did what it is for.
abbrev pub is_done : Result Reply → Bool
is_done (raised e) = false
is_done (ok (page code heading)) = nat_eq code 200
is_done (ok (json fs)) = true

-- The token that a request names.
abbrev pub named_token : Conversions → LinkRequest → Option String
named_token py (opened o) = o
named_token py (posted (raised e)) = none
named_token py (posted (ok v)) = elim v [
  | dict fs ↦ some (str_of py (or_nul (get_field fs "token")))
  | _ ↦ none
]

module _ {S : Type 0} (py : Conversions) (d : Deps S) where
  -- What was done for the request from `s` on: the token that it names was consumed with the
  -- purpose, is complete and names a stored user, and the link acted for this user and nothing
  -- followed.
  pub record Consumed (link : Link S) (req : LinkRequest) (s : S) (out : Result Reply × S)
      : Type 0 where
    pub token : String
    pub tokens : EmailTokenRepository S
    pub value : TokenData
    pub holder : User
    pub named : named_token py req ≡ some token
    pub there : d.email_tokens ≡ some tokens
    pub consumed : (tokens.consume_token token s).0 ≡ ok (some value)
    pub purpose_lem : has_purpose link.purpose value ≡ true
    pub complete_lem : link.is_complete value ≡ true
    pub stored :
        (user_at d.users value.user_id (tokens.consume_token token s).1).0 ≡ ok (some holder)
    pub acted :
        out
        ≡ link.act value holder (user_at d.users value.user_id (tokens.consume_token token s).1).1

  -- What is left to check of a token that was consumed.
  abbrev Complete : Link S → TokenData → S → Result Reply × S → Type 0
  Complete link t s out =
      (u : User) × (has_purpose link.purpose t ≡ true)
      × (link.is_complete t ≡ true)
      × ((user_at d.users t.user_id s).0 ≡ ok (some u))
      × (out ≡ link.act t u (user_at d.users t.user_id s).1)

  user_sound :
      (link : Link S) (get : Bool) (t : TokenData) (s : S)
      → let out = (do u ← user_at d.users t.user_id; with_user py d link get t u) s in
        has_purpose link.purpose t ≡ true
        → link.is_complete t ≡ true
        → is_done out.0 ≡ true
        → Complete link t s out
  user_sound link get t s p c h = elim (Result-cases (user_at d.users t.user_id s).0) [
    | inr (x, k) ↦ absurd (ground arith)
    | inl (none, k) ↦ elim (Bool-cases get) [
      | inl g ↦ absurd (ground arith)
      | inr g ↦ absurd (ground arith)
    ]
    | inl (some u, k) ↦ (u, p, c, k, ground arith)
  ]

  data_sound :
      (link : Link S) (get : Bool) (t : TokenData) (s : S)
      → is_done (with_data py d link get (some t) s).0 ≡ true
      → Complete link t s (with_data py d link get (some t) s)
  data_sound link true t s h = elim (Bool-cases (has_purpose link.purpose t)) [
    | inr other ↦ absurd (ground arith)
    | inl same ↦ elim (Bool-cases (link.is_complete t)) [
      | inr lacks ↦ absurd (ground arith)
      | inl whole ↦
          let (u, p, c, k, a) = user_sound link true t s same whole (ground arith) in
          (u, p, c, k, ground (arith, a))
    ]
  ]
  data_sound link false t s h = elim (Bool-cases (has_purpose link.purpose t)) [
    | inr other ↦ absurd (ground arith)
    | inl same ↦ elim (Bool-cases (link.is_complete t)) [
      | inr lacks ↦ absurd (ground arith)
      | inl whole ↦
          let (u, p, c, k, a) = user_sound link false t s same whole (ground arith) in
          (u, p, c, k, ground (arith, a))
    ]
  ]

  token_sound :
      (link : Link S) (get : Bool) (req : LinkRequest) (token : String)
      (o : Option (EmailTokenRepository S)) (s : S)
      → named_token py req ≡ some token
      → d.email_tokens ≡ o
      → is_done (with_token py d link get token o s).0 ≡ true
      → Consumed link req s (with_token py d link get token o s)
  token_sound link true req token none s n e h = absurd cc
  token_sound link false req token none s n e h = absurd cc
  token_sound link get req token (some tokens) s n e h =
      let t = (tokens.consume_token token s).1 in
      elim (Result-cases (tokens.consume_token token s).0) [
        | inr (x, k) ↦ absurd (ground arith)
        | inl (none, k) ↦ elim (Bool-cases get) [
          | inl g ↦ absurd (ground arith)
          | inr g ↦ absurd (ground arith)
        ]
        | inl (some v, k) ↦
            let same : with_token py d link get token (some tokens) s
                ≡ with_data py d link get (some v) t =
              ground (arith, k) in
            let (u, p, c, f, a) = data_sound link get v t (ground (arith, same)) in
            record {
              token = token;
              tokens = tokens;
              value = v;
              holder = u;
              named = n;
              there = e;
              consumed = k;
              purpose_lem = p;
              complete_lem = c;
              stored = f;
              acted = same ∙ a;
            }
      ]

  pub follow_sound :
      (link : Link S) (req : LinkRequest) (s : S)
      → is_done (follow py d link req s).0 ≡ true
      → Consumed link req s (follow py d link req s)
  follow_sound link (opened none) s h = absurd cc
  follow_sound link (opened (some t)) s h = elim (Bool-cases (t == "")) [
    | inl blank ↦ absurd (ground arith)
    | inr given ↦
        let same : follow py d link (opened (some t)) s
            ≡ with_token py d link true t d.email_tokens s =
          ground (arith, given) in
        subst (Consumed link (opened (some t)) s) (sym same) (
          token_sound link true (opened (some t)) t d.email_tokens s refl refl
            (ground (arith, same)))
  ]
  follow_sound link (posted (raised e)) s h = absurd cc
  follow_sound link (posted (ok (Value.dict fs))) s h =
      let v = or_nul (get_field fs "token") in
      let req = posted (ok (Value.dict fs)) in
      elim (Bool-cases (truthy v)) [
        | inr blank ↦ absurd (ground arith)
        | inl given ↦
            let same : follow py d link req s
                ≡ with_token py d link false (str_of py v) d.email_tokens s =
              ground (arith, given) in
            subst (Consumed link req s) (sym same) (
              token_sound link false req (str_of py v) d.email_tokens s refl refl
                (ground (arith, same)))
      ]
  follow_sound link (posted (ok v)) s h = absurd (ground arith)

  -- The address of the holder was marked as verified, which was put on record, and nothing else
  -- happened after it.
  pub record Marked (caller : Caller) (agent : Option String) (value : TokenData) (holder : User)
      (at after : S) : Type 0 where
    pub id : ℕ
    pub answer : Option User
    pub id_lem : value.user_id ≡ pos id
    pub updated : (d.users.update id (field "email_verified" (flag true) end) at).0 ≡ ok answer
    pub nothing_else :
        after
        ≡ (log_audit_event d.audit holder AuditAction.update AuditResource.user
            (field "email_verified" (flag true) end)
            (some id)
            (origin caller agent)
            (d.users.update id (field "email_verified" (flag true) end) at).1).1

  marked :
      (caller : Caller) (agent : Option String) (get : Bool) (i : ℤ) (v : TokenData) (u : User)
      (s : S)
      → v.user_id ≡ i
      → is_done (mark_verified py d caller agent get v u s).0 ≡ true
      → Marked caller agent v u s (mark_verified py d caller agent get v u s).1
  marked caller agent get (negsuc n) v u s e h = absurd (ground (arith, e, h))
  marked caller agent get (pos n) v u s e h =
      let fields = field "email_verified" (flag true) end in
      let t = (d.users.update n fields s).1 in
      let log =
        log_audit_event d.audit u AuditAction.update AuditResource.user fields (some n)
          (origin caller agent) t in
      elim (Result-cases (d.users.update n fields s).0) [
        | inr (x, k) ↦ absurd (ground (arith, e, k))
        | inl (o, k) ↦ elim (Result-cases log.0) [
          | inr (x, l) ↦ absurd (ground (arith, e, k, l))
          | inl (x, l) ↦ record {
            id = n;
            answer = o;
            id_lem = e;
            updated = k;
            nothing_else = elim (Bool-cases get) [
              | inl g ↦ ground (arith, e, k, l, g)
              | inr g ↦ ground (arith, e, k, l, g)
            ];
          }
        ]
      ]

  -- What the theorem gives of an outcome, from the state `t` behind the rate limit.
  abbrev pub Verified : Caller → Option String → LinkRequest → S → Result Reply × S → Type 0
  Verified caller agent req t out =
      (c : Consumed (verification py d caller agent (is_get req)) req t out) × Marked caller agent
        c.value c.holder (user_at d.users c.value.user_id (c.tokens.consume_token c.token t).1).1
        out.1

  done_sound :
      (caller : Caller) (agent : Option String) (req : LinkRequest) (t : S)
      → let out = follow py d (verification py d caller agent (is_get req)) req t in
        is_done out.0 ≡ true → Verified caller agent req t out
  done_sound caller agent req t h =
      let link = verification py d caller agent (is_get req) in
      let c = follow_sound link req t h in
      let at = (user_at d.users c.value.user_id (c.tokens.consume_token c.token t).1).1 in
      (
        c,
        subst (λ o. Marked caller agent c.value c.holder at o.1) (sym c.acted)
            (marked caller agent (is_get req) c.value.user_id c.value c.holder at refl
              (subst (λ o. is_done o.0 ≡ true) c.acted h)),
      )

  -- A reply that an address is verified is given only after the token that the request names was
  -- consumed, which was made for the verification of an address and names a user who is stored; this
  -- user was then marked as verified and that put on record, and nothing else was done. It holds for
  -- a link and for a request with a body, whatever the cache and the repositories do.
  pub verify_email_sound :
      (caller : Caller) (agent : Option String) (req : LinkRequest) (s : S)
      → let out = verify_email py d caller agent req s in
        is_done out.0 ≡ true → Verified caller agent req (require_rate_limit d.cache caller s).1 out
  unfolding verify_email
  verify_email_sound caller agent req s h =
      let t = (require_rate_limit d.cache caller s).1 in
      elim (Result-cases (require_rate_limit d.cache caller s).0) [
        | inr (x, k) ↦ absurd (ground arith)
        | inl (x, k) ↦
            let same : verify_email py d caller agent req s
                ≡ follow py d (verification py d caller agent (is_get req)) req t =
              ground (arith, k) in
            subst (Verified caller agent req t) (sym same)
              (done_sound caller agent req t (subst (λ o. is_done o.0 ≡ true) same h))
      ]
