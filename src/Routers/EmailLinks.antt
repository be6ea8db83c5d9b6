-- ===== src/Routers/EmailLinks.antt =====
-- routers/auth.py: the links in mails, which verify an address or confirm a new one, and the sending
-- of a link again. Of a page of HTML the reply keeps its status and its heading. The rate limit runs
-- first; logging is left out.
pub mod Once
pub mod Reveals
pub mod Sound
use clean_architecture_saas.Prelude.{
  ℕ, String, Bool, true, false, not, Option, none, some, ◌==◌, if◌then◌else◌,
}
use clean_architecture_saas.Python.Exec.{
  failure, http, Result, ok, raised, Exec, pure, raise, lift, attempt, ◌>>=◌, ◌>>◌,
}
use clean_architecture_saas.Python.Int.{ℤ, pos, negsuc, eq_ℤ, to_nat}
use clean_architecture_saas.Python.Value.{
  Value, nul, flag, text, dict, truthy, Fields, end, field, get_field, or_nul,
}
use clean_architecture_saas.Domain.Audit.{AuditAction, AuditResource, log_audit_event}
use clean_architecture_saas.Domain.Auth.{Conversions, TokenClaims, str_of}
use clean_architecture_saas.Domain.User.{User}
use clean_architecture_saas.Access.Permissions.{int_or_raise, user_at}
use clean_architecture_saas.Access.RateLimit.{Caller, require_rate_limit}
use clean_architecture_saas.Tokens.EmailTokens.{TokenData}
use clean_architecture_saas.Users.Service.{
  EmailTokenRepository, EmailSender, create_email_verification_token,
}
use clean_architecture_saas.Routers.Auth.{Deps, origin}

-- What a handler answers: a page, or a JSON object.
pub data Reply : Type 0 where
  page : ℕ → String → Reply
  json : Fields → Reply

-- A link that is opened, or a request with a JSON body, which may not be readable.
pub data LinkRequest : Type 0 where
  opened : Option String → LinkRequest
  posted : Result Value → LinkRequest

abbrev pub is_get : LinkRequest → Bool
is_get (opened t) = true
is_get (posted b) = false

-- A failure is a page for a link and an exception for a request.
abbrev pub fail : {S : Type 0} → Bool → ℕ → String → String → Exec S Reply
fail get code heading detail = if get then pure (page code heading) else raise (http code detail)

abbrev pub bad_body : {S A : Type 0} → Exec S A
bad_body = raise (http 400 "invalid request body")

-- `body.get("token")`: only a dictionary has it.
abbrev pub body_token : {S : Type 0} → Result Value → Exec S Value
body_token (raised e) = bad_body
body_token (ok v) = elim v [ dict fs ↦ pure (or_nul (get_field fs "token")) | _ ↦ bad_body ]

abbrev pub has_purpose : String → TokenData → Bool
has_purpose purpose t = elim t.purpose [
  | none ↦ false
  | some v ↦ elim v [ text p ↦ p == purpose | _ ↦ false ]
]

-- `bool(user_id)`
abbrev pub has_user : TokenData → Bool
has_user t = not (eq_ℤ t.user_id (pos 0))

-- What differs between the two handlers: the purpose, the headings and what is done for a user that
-- is found.
pub record Link (S : Type 0) : Type 0 where
  pub purpose : String
  pub missing : String
  pub failed : String
  pub unavailable : String
  pub is_complete : TokenData → Bool
  pub act : TokenData → User → Exec S Reply

module _ {S : Type 0} (py : Conversions) (d : Deps S) where
  abbrev pub with_user : Link S → Bool → TokenData → Option User → Exec S Reply
  with_user link get t none = fail get 404 "User not found" "user not found"
  with_user link get t (some u) = link.act t u

  abbrev pub with_data : Link S → Bool → Option TokenData → Exec S Reply
  with_data link get none = fail get 400 link.failed "invalid or expired token"
  with_data link get (some t) =
      if has_purpose link.purpose t
      then (if link.is_complete t
          then (do u ← user_at d.users t.user_id; with_user link get t u)
          else fail get 400 "Invalid token data" "invalid token data")
      else fail get 400 link.failed "invalid or expired token"

  abbrev pub with_token : Link S → Bool → String → Option (EmailTokenRepository S) → Exec S Reply
  with_token link get token none = fail get 503 "Service Unavailable" link.unavailable
  with_token link get token (some tokens) = do
    found ← tokens.consume_token token
    with_data link get found

  -- The two ways a token comes in.
  abbrev pub follow : Link S → LinkRequest → Exec S Reply
  follow link (opened none) = pure (page 400 link.missing)
  follow link (opened (some t)) =
      if t == "" then pure (page 400 link.missing) else with_token link true t d.email_tokens
  follow link (posted body) = do
    v ← body_token body
    if truthy v
        then with_token link false (str_of py v) d.email_tokens
        else raise (http 400 "token is required")

  -- A row of no id is not there, so the user is not found before.
  abbrev pub on_user : ℤ → (ℕ → Exec S Reply) → Exec S Reply
  on_user (pos n) f = f n
  on_user (negsuc n) f = raise (failure "no such row")

  abbrev pub replied : Bool → String → Fields → Exec S Reply
  replied get heading fs = if get then pure (page 200 heading) else pure (json fs)

  abbrev pub mark_verified : Caller → Option String → Bool → TokenData → User → Exec S Reply
  mark_verified caller agent get t u = on_user t.user_id λ n. (do
    d.users.update n (field "email_verified" (flag true) end)
    log_audit_event d.audit u AuditAction.update AuditResource.user
        (field "email_verified" (flag true) end) (some n) (origin caller agent)
    replied get "Email Verified Successfully!"
        (field "message" (text "email verified successfully") (field "verified" (flag true) end)))

  abbrev pub verification : Caller → Option String → Bool → Link S
  verification caller agent get = record {
    purpose = "email_verification";
    missing = "Verification Failed";
    failed = "Verification Failed";
    unavailable = "email verification service unavailable";
    is_complete = has_user;
    act = mark_verified caller agent get;
  }

  unfoldable pub verify_email : Caller → Option String → LinkRequest → Exec S Reply
  unfolding require_rate_limit get_field str_of log_audit_event
  verify_email caller agent req = do
    require_rate_limit d.cache caller
    follow (verification caller agent (is_get req)) req

  -- `token_data.get("data", {}).get("new_email")`
  abbrev pub new_email : TokenData → Value
  new_email t = elim t.extra [ none ↦ nul | some fs ↦ or_nul (get_field fs "new_email") ]

  -- The column takes texts only.
  abbrev pub set_address : ℕ → Value → Exec S (Unit {0})
  set_address n v = elim v [
    | text e ↦ d.users.set_email n e
    | _ ↦ raise (failure "refused by the database")
  ]

  abbrev pub replace_email : Caller → Option String → Bool → TokenData → User → Exec S Reply
  replace_email caller agent get t u = on_user t.user_id λ n. (do
    set_address n (new_email t)
    log_audit_event d.audit u AuditAction.update AuditResource.user
        (field "email_updated" (flag true) (field "new_email" (new_email t) end)) (some n)
        (origin caller agent)
    replied get "Email Updated Successfully!"
        (field "message" (text "email updated successfully") (field "updated" (flag true) end)))

  abbrev pub confirmation : Caller → Option String → Bool → Link S
  confirmation caller agent get = record {
    purpose = "email_update";
    missing = "Email Update Failed";
    failed = "Email Update Failed";
    unavailable = "email update service unavailable";
    is_complete = λ t. if has_user t then truthy (new_email t) else false;
    act = replace_email caller agent get;
  }

  unfoldable pub confirm_email_update : Caller → Option String → LinkRequest → Exec S Reply
  unfolding require_rate_limit get_field str_of log_audit_event
  confirm_email_update caller agent req = do
    require_rate_limit d.cache caller
    follow (confirmation caller agent (is_get req)) req

  -- The address of the body, or nothing.
  abbrev pub body_email : Result Value → Value
  body_email (raised e) = nul
  body_email (ok v) = elim v [ dict fs ↦ or_nul (get_field fs "email") | _ ↦ nul ]

  abbrev pub own_address : Option User → Value
  own_address none = nul
  own_address (some u) = text u.email

  abbrev pub address : Result Value → Option TokenClaims → Exec S Value
  address body current = if truthy (body_email body) then pure (body_email body) else elim current [
    | none ↦ pure nul
    | some claims ↦ do
      n ← lift (int_or_raise claims.subject)
      u ← user_at d.users n
      pure (own_address u)
  ]

  abbrev pub message : String → Fields
  message m = field "message" (text m) end

  abbrev pub send : String → String → Option (EmailSender S) → Exec S Fields
  send email token none = pure (message "verification email sent")
  send email token (some sender) = do
    attempt (sender.send_verification email token)
        (λ e. raise (http 500 "failed to send verification email"))
    pure (message "verification email sent")

  -- `int(user.id)`
  abbrev pub send_link : String → Option ℕ → Option (EmailTokenRepository S) → Exec S Fields
  send_link email id none = raise (http 503 "email verification service unavailable")
  send_link email none (some tokens) = raise (failure "int() of None")
  send_link email (some n) (some tokens) = do
    token ←
        create_email_verification_token d.users d.crypt d.email_tokens d.token_urlsafe d.now tokens
          n email
    send email token d.sender

  abbrev pub link_for : String → Option User → Exec S Fields
  link_for email none = pure (message "if the email exists, a verification link has been sent")
  link_for email (some u) =
      if u.email_verified
      then pure (message "email already verified")
      else send_link email u.id d.email_tokens

  abbrev pub for_address : Value → Exec S Fields
  for_address v = elim v [
    | text email ↦
        if email == ""
        then raise (http 400 "email is required")
        else (do u ← d.users.get_by_email_global email; link_for email u)
    | w ↦
        if truthy w
        then raise (failure "refused by the database")
        else raise (http 400 "email is required")
  ]

  unfoldable pub resend_verification_email :
      Caller → Result Value → Option TokenClaims → Exec S Fields
  unfolding require_rate_limit get_field create_email_verification_token
  resend_verification_email caller body current = do
    require_rate_limit d.cache caller
    v ← address body current
    for_address v
