-- ===== src/Tests/Caches.antt =====
-- The cache in memory, sessions, tokens and feature flags.
use clean_architecture_saas.Prelude.{
  String, ◌≡◌, ◌↔◌, refl, true, false, Option, none, some, [], ◌∷◌, keep, any, length, ◌==◌, not,
  arith, if◌then◌else◌,
}
use clean_architecture_saas.Python.Exec.{ok}
use clean_architecture_saas.Python.Dict
use clean_architecture_saas.Python.Int.{ℤ, pos}
use clean_architecture_saas.Python.Text.{show}
use clean_architecture_saas.Python.Value.{text, texts, num, flag, Fields, end, field, get_field}
use clean_architecture_saas.Cache.Keys.{session, user_sessions}
use clean_architecture_saas.Cache.InMemory.{Mem, in_memory, tick, set, delete}
use clean_architecture_saas.Cache.InMemory.Laws.{view}
use clean_architecture_saas.Db.Table.{Documented}
use clean_architecture_saas.Db.ListTable.{Documented-table_at}
use clean_architecture_saas.Domain.Feature.{
  FeatureFlag, FeatureFlagRule, FeatureFlagContext, str, evaluate,
}
use clean_architecture_saas.Domain.Feature.Outcome.{evaluate_iff, Outcome}
use clean_architecture_saas.Sessions.{revoke_all_user_sessions}
use clean_architecture_saas.Sessions.Effects.{present, revoked_count}
use clean_architecture_saas.Sessions.Revocation.{revoke_all_exact, live_token, holds}
use clean_architecture_saas.Sessions.Service
use clean_architecture_saas.Sessions.Service.Complete.{revoke_all_complete, in_use}
use clean_architecture_saas.Tokens.EmailTokens.{TokenData, create_token, consume_token, is_reserved}
use clean_architecture_saas.Tokens.Payload.{consume-create, entry}
use clean_architecture_saas.Tokens.Refresh.{
  of_user, sql_tokens, find_by_token_hash, purge_refresh_tokens,
}
use clean_architecture_saas.Tokens.Refresh.Laws.{find-purge}
use clean_architecture_saas.Tests.World.{
  world, refresh_table, blacklist_table, world_cache, empty_cache, token_of,
}

-- One live session of the user 1, and a hash whose session is gone.
abbrev signed_in : Mem
signed_in =
    (set (user_sessions 1) (texts ("h1" ∷ "h2" ∷ [])) none
      (set (session "h1") (text "t1") none empty_cache).1).1

in_list : view signed_in (user_sessions 1) ≡ some (texts ("h1" ∷ "h2" ∷ []))
unfolding view set Dict.get Dict.put session user_sessions show
in_list = refl

revoke_all_exact_example :
    let after = view (revoke_all_user_sessions in_memory 1 signed_in).1 in
    ((revoke_all_user_sessions in_memory 1 signed_in).0
      ≡ ok (revoked_count (present ("h1" ∷ "h2" ∷ []) (view signed_in))))
    × (after (user_sessions 1) ≡ none)
    × (live_token "h1" after
        ≡ (if holds ("h1" ∷ "h2" ∷ []) "h1" then [] else live_token "h1" (view signed_in)))
revoke_all_exact_example = revoke_all_exact 1 ("h1" ∷ "h2" ∷ []) "h1" signed_in in_list refl

refresh_documented : Documented refresh_table (λ w. w.refresh)
refresh_documented =
    Documented-table_at (λ w. w.refresh) (λ rs w. record w { refresh = rs }) (λ rs w. refl)

revoke_all_complete_example :
    let out =
      Service.revoke_all_user_sessions
        (sql_tokens refresh_table blacklist_table world_cache 50 none)
        (some world_cache)
        1
        world in
    (out.0
      ≡ ok (record {
        revoked_count =
            length (keep (λ r. not (r.token_hash == "")) (keep (of_user 1) world.refresh));
        failed_count = 0;
      }))
    × (any (in_use 1) out.1.refresh ≡ false)
unfolding delete
revoke_all_complete_example =
    revoke_all_complete refresh_table blacklist_table world_cache 50 none (λ w. w.refresh)
      refresh_documented (some world_cache) (λ h w. refl) 1 world

find-purge_example :
    (find_by_token_hash refresh_table blacklist_table world_cache 50 none "h1"
      (purge_refresh_tokens refresh_table blacklist_table world_cache 50 none none world).1).0
    ≡ ok (some (token_of 1 "h1"))
unfolding find_by_token_hash
find-purge_example =
    find-purge refresh_table blacklist_table world_cache 50 none (λ w. w.refresh) refresh_documented
      "h1" none world (token_of 1 "h1") (λ w. refl) refl refl refl

abbrev new_email : Option Fields
new_email = some (field "new_email" (text "al@example.com") end)

not_reserved : is_reserved "new_email" ≡ false
unfolding is_reserved
not_reserved = refl

consume-create_example :
    (d : TokenData) × ((consume_token in_memory "t"
        (tick 5 (create_token in_memory 1 "t" "email_update" new_email 3600 empty_cache).1)).0
      ≡ ok (some d))
    × (d.user_id ≡ pos 1)
    × (d.purpose ≡ some (text "email_update"))
    × (entry d.extra "new_email" ≡ entry new_email "new_email")
unfolding get_field
consume-create_example =
    consume-create 1 "t" "email_update" new_email 3600 5 empty_cache "new_email" (refl, tt)
      not_reserved (omega arith)

-- A stand-in for the salted hash.
abbrev salted : String → ℤ
salted s = pos 42

abbrev beta_rule : FeatureFlagRule
beta_rule = record {
  id = none;
  conditions =
      record { attribute = text "plan"; operator = text "equals"; value = text "pro" } ∷ [];
  value = text "beta";
  rollout = pos 50;
}

abbrev beta_flag : FeatureFlag
beta_flag = record {
  is_enabled = true;
  enabled_value = flag true;
  default_value = flag false;
  rules = beta_rule ∷ [];
  percentage = num (pos 10);
}

abbrev pro_user : FeatureFlagContext
pro_user = record { user_id = some (str "ann"); custom = field "plan" (text "pro") end }

evaluate_iff_example :
    (evaluate salted beta_flag pro_user ≡ ok (text "beta", true))
    ↔ Outcome salted pro_user beta_flag (beta_rule ∷ []) (text "beta", true)
evaluate_iff_example = evaluate_iff salted pro_user beta_flag (text "beta", true) refl
