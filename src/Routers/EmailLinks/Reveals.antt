-- ===== src/Routers/EmailLinks/Reveals.antt =====
-- What the reply of a request for a new link tells.
use clean_architecture_saas.Prelude.{
  ℕ, String, ◌≡◌, ◌≢◌, ◌↔◌, refl, sym, ◌∙◌, inl, inr, false, Option, none, some, arith, ◌==◌,
  Bool-cases,
}
use clean_architecture_saas.Python.Exec.{Exc, http, Result, ok, raised, Result-cases}
use clean_architecture_saas.Python.Value.{text, dict, Fields, end, field}
use clean_architecture_saas.Domain.Auth.{Conversions, TokenClaims}
use clean_architecture_saas.Domain.User.{User}
use clean_architecture_saas.Access.RateLimit.{Caller, require_rate_limit}
use clean_architecture_saas.Users.Service.{
  EmailTokenRepository, EmailSender, create_email_verification_token,
}
use clean_architecture_saas.Routers.Auth.{Deps}
use clean_architecture_saas.Routers.EmailLinks.{
  message, send, send_link, link_for, resend_verification_email,
}

module _ {S : Type 0} (py : Conversions) (d : Deps S) where
  abbrev pub discreet : Fields
  discreet = message py d "if the email exists, a verification link has been sent"

  sent : message py d "verification email sent" ≢ discreet
  sent e = cc

  known : message py d "email already verified" ≢ discreet
  known e = cc

  same_ok : (fs gs : Fields) → ◌≡◌ {A = Result Fields} (ok fs) (ok gs) → fs ≡ gs
  same_ok fs gs e = cc

  send_lem :
      (email token : String) (sender : EmailSender S) (s : S)
      → (sender.send_verification email token s).0 ≡ ok tt
      → (send py d email token (some sender) s).0 ≡ ok (message py d "verification email sent")
  send_lem email token sender s k = rw k refl

  raised-ok : (x : Exc) (fs : Fields) → ◌≡◌ {A = Result Fields} (raised x) (ok fs) → ⊥
  raised-ok x fs e = cc

  send_failed :
      (email token : String) (sender : EmailSender S) (s : S) (x : Exc)
      → (sender.send_verification email token s).0 ≡ raised x
      → (send py d email token (some sender) s).0
        ≡ raised (http 500 "failed to send verification email")
  send_failed email token sender s x k = rw k refl

  send_differs :
      (email token : String) (o : Option (EmailSender S)) (s : S)
      → (send py d email token o s).0 ≢ ok discreet
  send_differs email token none s e = sent (same_ok _ _ e)
  send_differs email token (some sender) s e =
      elim (Result-cases (sender.send_verification email token s).0) [
        | inl (x, k) ↦ sent (same_ok _ _ (sym (send_lem email token sender s k) ∙ e))
        | inr (x, k) ↦ ground arith
      ]

  link_differs :
      (email : String) (id : Option ℕ) (o : Option (EmailTokenRepository S)) (s : S)
      → (send_link py d email id o s).0 ≢ ok discreet
  link_differs email id none s e = raised-ok _ _ e
  link_differs email none (some tokens) s e = raised-ok _ _ e
  link_differs email (some n) (some tokens) s e =
      let made =
        create_email_verification_token d.users d.crypt d.email_tokens d.token_urlsafe d.now tokens
          n email s in
      elim (Result-cases made.0) [
        | inl (t, k) ↦ send_differs email t d.sender made.1 (ground arith)
        | inr (x, k) ↦ ground arith
      ]

  link_for_iff :
      (email : String) (o : Option User) (s : S)
      → ((link_for py d email o s).0 ≡ ok discreet) ↔ (o ≡ none)
  link_for_iff email none s = (λ h. refl, λ h. refl)
  link_for_iff email (some u) s = elim (Bool-cases u.email_verified) [
    | inl done ↦ (λ h. absurd (known (ground arith)), λ h. cc)
    | inr open_yet ↦
        (λ h. absurd (link_differs email u.id d.email_tokens s (ground arith)), λ h. cc)
  ]

  -- For a request that the rate limit lets pass and that gives an address: the reply that says nothing
  -- of the address comes exactly if no user has it, so the replies tell who is registered.
  pub resend_reveals :
      (caller : Caller) (email : String) (current : Option TokenClaims) (s t : S) (o : Option User)
      → (email == "") ≡ false
      → require_rate_limit d.cache caller s ≡ (ok tt, t)
      → d.users.get_by_email_global email t ≡ (ok o, t)
      → ((resend_verification_email py d caller
            (ok (dict (field "email" (text email) end)))
            current
            s).0
          ≡ ok discreet)
        ↔ (o ≡ none)
  unfolding resend_verification_email
  resend_reveals caller email current s t o given passed found =
      let same : (resend_verification_email py d caller (ok (dict (field "email" (text email) end)))
            current s).0
          ≡ (link_for py d email o t).0 =
        ground (arith, passed, found) in
      let (there, back) = link_for_iff email o t in
      (λ h. there (ground (arith, same)), λ h. ground (arith, same, back h))
