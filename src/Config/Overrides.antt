-- ===== src/Config/Overrides.antt =====
-- internal/config/config.go, `applyEnvOverrides`: the environment is applied once and for all.
use mirador_rca.Prelude.{
  Bool, true, false, ◌≡◌, refl, Option, none, some, String, str_eq, if◌then◌else◌, Bool-cases, inl,
  inr,
}
use mirador_rca.Prelude.Int.{ℤ}
use mirador_rca.Prelude.Text.{equal_fold, to_lower, codes_eq}
use mirador_rca.Model.{Duration}
use mirador_rca.Config.{
  Config, CacheConfig, CoreClientConfig, Environment, text_or, parsed_or, flag_or, set_if,
  override_cache, override_core, apply_env_overrides,
}

text_or_idem : (v x : String) → text_or v (text_or v x) ≡ text_or v x
unfolding text_or
text_or_idem v x = elim (Bool-cases (str_eq v "")) [ inl e ↦ rw e | inr e ↦ rw e ]

parsed_or_idem :
    (parse : String → Option ℤ) (v : String) (x : ℤ)
    → parsed_or parse v (parsed_or parse v x) ≡ parsed_or parse v x
unfolding parsed_or
parsed_or_idem parse v x = go (str_eq v "") (parse v)
  where
    chosen : Bool → Option ℤ → ℤ → ℤ
    chosen b o y = if b then y else elim o as (λ _. ℤ) [ none ↦ y | some z ↦ z ]

    go : (b : Bool) (o : Option ℤ) → chosen b o (chosen b o x) ≡ chosen b o x
    go true o = refl
    go false none = refl
    go false (some z) = refl

flag_or_idem : (v : String) (x : Bool) → flag_or v (flag_or v x) ≡ flag_or v x
unfolding flag_or
flag_or_idem v x = elim (Bool-cases (str_eq v "")) [ inl e ↦ rw e | inr e ↦ rw e ]

set_if_idem : (t x : Bool) → set_if t (set_if t x) ≡ set_if t x
unfolding set_if
set_if_idem true x = refl
set_if_idem false x = refl

ruleset idempotent = (text_or_idem, parsed_or_idem, flag_or_idem, set_if_idem)

module _ (parse_duration : String → Option Duration) (env : Environment) where
  override_cache_idem :
      (c : CacheConfig)
      → override_cache parse_duration env (override_cache parse_duration env c)
        ≡ override_cache parse_duration env c
  unfolding override_cache
  override_cache_idem c = simp idempotent refl

  override_core_idem :
      (c : CoreClientConfig)
      → override_core parse_duration env (override_core parse_duration env c)
        ≡ override_core parse_duration env c
  unfolding override_core
  override_core_idem c = simp idempotent refl

  apply_env_overrides_idem :
      (cfg : Config)
      → apply_env_overrides parse_duration env (apply_env_overrides parse_duration env cfg)
        ≡ apply_env_overrides parse_duration env cfg
  unfolding apply_env_overrides
  apply_env_overrides_idem cfg = simp (idempotent, override_cache_idem, override_core_idem) refl

-- Applying the environment a second time changes nothing, whatever the settings and the variables are,
-- those that do not parse included; and an environment in which nothing is set changes nothing at all.
pub apply_env_overrides_lem :
    (parse_duration : String → Option Duration) (env : Environment) (cfg : Config)
    → (apply_env_overrides parse_duration env (apply_env_overrides parse_duration env cfg)
        ≡ apply_env_overrides parse_duration env cfg)
      × (apply_env_overrides parse_duration (λ _. "") cfg ≡ cfg)
unfolding apply_env_overrides override_cache override_core text_or parsed_or flag_or set_if
    equal_fold to_lower codes_eq
apply_env_overrides_lem parse_duration env cfg =
    (apply_env_overrides_idem parse_duration env cfg, refl)
