-- ===== src/Cache/Keys.antt =====
-- The keys under which the repositories cache, and that different keys do not meet.
use Prim.Native.String
use text.Mathlib.TextLemmas.{append_cancel_left}
use clean_architecture_saas.Prelude.{
  ℕ, String, ◌≡◌, ◌≢◌, sym, ◌∙◌, ap, false, inl, inr, ◌++◌, arith, ◌==◌, eq_iff, nat_eq, Bool-cases,
}
use clean_architecture_saas.Python.Text.{codes, codes-append, show, parse_int, parse_int-show}

-- The f-strings that join a fixed part and a variable one.
infixr 66 ◌&◌
abbrev pub ◌&◌ : String → String → String
s & t = String.◌++◌ s t

pub eq_of_append : (p a b : String) → (p & a == p & b) ≡ (a == b)
eq_of_append p a b =
    ground (arith, eq_iff (p & a) (p & b), eq_iff a b, append_cancel_left p a b, ap (λ s. p & s))

pub show_inj : (n m : ℕ) → show n ≡ show m → n ≡ m
show_inj n m e = cc (parse_int-show n, parse_int-show m, ap parse_int e)

-- Two fixed parts that differ keep the whole apart.
pub apart : (p q a b : String) → codes p ++ codes a ≢ codes q ++ codes b → (p & a == q & b) ≡ false
apart p q a b h = elim (Bool-cases (p & a == q & b)) [
  | inl same ↦
      absurd (h (sym (codes-append p a) ∙ ap codes ((eq_iff _ _).0 same) ∙ codes-append q b))
  | inr other ↦ other
]

unfoldable pub session : String → String
session h = "session:" & h

unfoldable pub user_sessions : ℕ → String
user_sessions uid = "user_sessions:" & show uid

unfoldable pub email_token : String → String
email_token token = "emailtoken:" & token

unfoldable pub user_id : ℕ → String
user_id uid = "user:id:" & show uid

unfoldable pub user_email : String → String
user_email email = "user:email:" & email

unfoldable pub user_list : ℕ → String
user_list tid = "user:list:tenant:" & show tid

unfoldable pub tenant_id : ℕ → String
tenant_id id = "tenant:id:" & show id

unfoldable pub tenant_slug : String → String
tenant_slug slug = "tenant:slug:" & slug

unfoldable pub tenant_list : String
tenant_list = "tenant:list:all"

pub session-session : (h k : String) → (session h == session k) ≡ (h == k)
unfolding session
session-session h k = eq_of_append "session:" h k

pub session-user_sessions : (h : String) (uid : ℕ) → (session h == user_sessions uid) ≡ false
unfolding session user_sessions
session-user_sessions h uid = apart "session:" "user_sessions:" h (show uid) (λ e. ground arith)

pub user_sessions-session : (h : String) (uid : ℕ) → (user_sessions uid == session h) ≡ false
unfolding session user_sessions
user_sessions-session h uid = apart "user_sessions:" "session:" (show uid) h (λ e. ground arith)

pub user_id-user_id : (n m : ℕ) → (user_id n == user_id m) ≡ nat_eq n m
unfolding user_id
user_id-user_id n m =
    eq_of_append "user:id:" (show n) (show m)
    ∙ ground (arith, eq_iff (show n) (show m), show_inj n m, ap show)

pub user_id-user_email : (n : ℕ) (e : String) → (user_id n == user_email e) ≡ false
unfolding user_id user_email
user_id-user_email n e = apart "user:id:" "user:email:" (show n) e (λ p. ground arith)

pub user_email-user_id : (n : ℕ) (e : String) → (user_email e == user_id n) ≡ false
unfolding user_id user_email
user_email-user_id n e = apart "user:email:" "user:id:" e (show n) (λ p. ground arith)

pub user_email-user_email : (e f : String) → (user_email e == user_email f) ≡ (e == f)
unfolding user_email
user_email-user_email e f = eq_of_append "user:email:" e f

pub user_list-user_id : (t n : ℕ) → (user_list t == user_id n) ≡ false
unfolding user_list user_id
user_list-user_id t n = apart "user:list:tenant:" "user:id:" (show t) (show n) (λ p. ground arith)

pub user_list-user_email : (t : ℕ) (e : String) → (user_list t == user_email e) ≡ false
unfolding user_list user_email
user_list-user_email t e = apart "user:list:tenant:" "user:email:" (show t) e (λ p. ground arith)

pub tenant_id-tenant_id : (n m : ℕ) → (tenant_id n == tenant_id m) ≡ nat_eq n m
unfolding tenant_id
tenant_id-tenant_id n m =
    eq_of_append "tenant:id:" (show n) (show m)
    ∙ ground (arith, eq_iff (show n) (show m), show_inj n m, ap show)

pub tenant_slug-tenant_id : (slug : String) (n : ℕ) → (tenant_slug slug == tenant_id n) ≡ false
unfolding tenant_slug tenant_id
tenant_slug-tenant_id slug n = apart "tenant:slug:" "tenant:id:" slug (show n) (λ p. ground arith)

pub tenant_list-tenant_id : (n : ℕ) → (tenant_list == tenant_id n) ≡ false
unfolding tenant_list tenant_id
tenant_list-tenant_id n = apart "tenant:list:all" "tenant:id:" "" (show n) (λ p. ground arith)
