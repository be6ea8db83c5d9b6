-- ===== src/Tests/Flags.antt =====
-- Issued tokens.
use clean_architecture_saas.Prelude.{◌≡◌, refl, none, some}
use clean_architecture_saas.Python.Exec.{ok}
use clean_architecture_saas.Python.Int.{pos}
use clean_architecture_saas.Python.Value.{num, text, end, field, get_field}
use clean_architecture_saas.Domain.Auth.{Conversions, TokenClaims}
use clean_architecture_saas.Domain.Auth.RoundTrip.{Unreserved}
use clean_architecture_saas.Auth.CurrentUser.{verify_token}
use clean_architecture_saas.Auth.Issue.{create_access_token, signed_payload}
use clean_architecture_saas.Auth.Issue.RoundTrip.{verify-create}

-- Moments are read from their seconds.
abbrev clock : Conversions
clock = record {
  fromtimestamp = λ v. elim v [ num n ↦ elim n [ pos t ↦ some t | _ ↦ none ] | _ ↦ none ];
  fromisoformat = λ s. none;
  repr = λ v. "";
}

abbrev staff : TokenClaims
staff = record {
  subject = "1";
  tenant_id = some (pos 1);
  issued_at = none;
  expires_at = none;
  extra = field "scope" (text "staff") end;
}

Unreserved-staff : Unreserved staff.extra
unfolding get_field
Unreserved-staff = record {
  distinct = (refl, tt);
  no_sub = refl;
  no_tenant = refl;
  no_iat = refl;
  no_exp = refl;
}

verify-create_example :
    verify_token clock
      (λ token. ok (signed_payload 100 900 staff none))
      (create_access_token (λ p. "signed") 100 900 staff none)
    ≡ ok (record staff { issued_at = some 100; expires_at = some 1000 })
verify-create_example =
    verify-create clock (λ token. ok (signed_payload 100 900 staff none)) (λ p. "signed") 100 900
      staff none refl (λ t. refl) Unreserved-staff
