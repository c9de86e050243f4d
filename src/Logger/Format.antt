-- ===== src/Logger/Format.antt =====
-- The format of the log lines, for every configuration.
use test_lintaspay_backend.Common.{
  ◌≡◌, ◌⊎◌, inl, inr, refl, ◌==◌, eq_iff, if◌then◌else◌, Bool-cases,
}
use test_lintaspay_backend.Logger.{Config, ZapConfig, capital_color, zap_config}

-- Lines are JSON or text; JSON lines have no colour codes; the format that is asked for is kept, and
-- without one, production writes JSON and any other environment text.
pub record IsReadable (c : Config) (zap : ZapConfig) : Type 0 where
  pub known : (zap.encoding ≡ "json") ⊎ (zap.encoding ≡ "console")
  pub colours : zap.encode_level ≡ capital_color → zap.encoding ≡ "console"
  pub asked_json : c.format ≡ "json" → zap.encoding ≡ "json"
  pub asked_text : c.format ≡ "console" → zap.encoding ≡ "console"
  pub by_environment :
      c.format ≡ "" → zap.encoding ≡ (if c.environment == "production" then "json" else "console")

-- Every configuration of the logger makes readable lines.
zap_config-IsReadable : (c : Config) → IsReadable c (zap_config c)
unfolding zap_config
zap_config-IsReadable c = record {
  known = elim (Bool-cases (c.format == "json")) [
    | inl j ↦ rw j (inl ((eq_iff c.format "json").0 j))
    | inr n ↦ elim (Bool-cases (c.format == "console")) [
      | inl t ↦ rw (n, t) (inr ((eq_iff c.format "console").0 t))
      | inr m ↦ elim (Bool-cases (c.environment == "production")) [
        | inl p ↦ rw (n, m, p) (inl refl)
        | inr q ↦ rw (n, m, q) (inr refl)
      ]
    ]
  ];
  colours = λ h. elim (Bool-cases (c.format == "json")) [
    | inl j ↦ let no : _ ≡ capital_color = rw j at h in cc
    | inr n ↦ elim (Bool-cases (c.environment == "production")) [
      | inl p ↦ let no : _ ≡ capital_color = rw (n, p) at h in cc
      | inr q ↦ elim (Bool-cases (c.format == "console")) [
        | inl t ↦ rw (n, t) ((eq_iff c.format "console").0 t)
        | inr m ↦ rw (n, m, q) refl
      ]
    ]
  ];
  asked_json = λ h. rw h refl;
  asked_text = λ h. rw h refl;
  by_environment = λ h. rw h refl;
}
