-- ===== src/Features/Stored.antt =====
-- What is cached about a flag does not hide the stored one, and what a flag that is off answers.
use clean_architecture_saas.Prelude.{
  ℕ, String, ◌≡◌, Bool, true, false, Option, none, some, arith, eq_iff, if◌then◌else◌,
}
use clean_architecture_saas.Python.Exec.{ok}
use clean_architecture_saas.Python.Int.{ℤ}
use clean_architecture_saas.Python.Value.{Value, text, dict, truthy, Fields}
use clean_architecture_saas.Domain.Auth.{Conversions}
use clean_architecture_saas.Domain.Feature.{FeatureFlag, UserId, evaluate}
use clean_architecture_saas.Domain.Feature.Stored.{flag_of}
use clean_architecture_saas.Cache.Client.{CacheClient}
use clean_architecture_saas.Cache.Documented.{Works}
use clean_architecture_saas.Domain.Audit.{AuditRepository}
use clean_architecture_saas.Features.{
  FeatureFlagRepository, Actor, create_feature_flag, get_feature_by_key, is_feature_enabled,
  get_feature_value, evaluate_stored, flag_key, id_text,
}

module _ {S : Type 0} (py : Conversions) (hash : String → ℤ) (repo : FeatureFlagRepository S)
    (cache : CacheClient S) where
  -- Over a cache that works and without an audit log: the text that is cached when a flag is created
  -- does not hide the stored flag, so the next read by its key asks the repository.
  create_shows :
      (see : S → String → Option Value) (works : Works cache see) (actor : Actor) (tid : Option ℕ)
      (key : String) (is_enabled : Bool) (fields ff : Fields) (s made : S)
      → repo.create tid fields s ≡ (ok ff, made)
      → let after =
          (create_feature_flag py hash repo none
            (some cache)
            actor
            tid
            key
            is_enabled
            fields
            s).1 in
        get_feature_by_key py hash repo none (some cache) tid key after
        ≡ repo.get_by_key tid key (cache.get (flag_key (id_text tid) key) after).1
  unfolding create_feature_flag get_feature_by_key
  create_shows see works actor tid key is_enabled fields ff s made creates =
      let k : String = flag_key (id_text tid) key in
      let word : Value = text (if is_enabled then "True" else "False") in
      ground (
        arith,
        works.set_ok k word none made,
        works.set_see k k word none made,
        eq_iff k k,
        works.get_ok k (cache.set k word none made).1,
      )

  -- A stored flag that is off answers false and its default value, whatever its rules are, as long as
  -- they can be read.
  off_lem :
      (audit : Option (AuditRepository S)) (tid : Option ℕ) (key : String) (uid : Option UserId)
      (custom : Option Fields) (ff : Fields) (f : FeatureFlag) (s after : S)
      → get_feature_by_key py hash repo audit (some cache) tid key s ≡ (ok (some ff), after)
      → truthy (dict ff) ≡ true
      → flag_of ff ≡ ok f
      → f.is_enabled ≡ false
      → (is_feature_enabled py hash repo audit (some cache) tid key uid custom s
          ≡ (ok false, after))
        × (get_feature_value py hash repo audit (some cache) tid key uid custom s
            ≡ (ok f.default_value, after))
  unfolding is_feature_enabled get_feature_value evaluate_stored evaluate
  off_lem audit tid key uid custom ff f s after found there reads off = (ground arith, ground arith)
