-- ===== src/Config/Settings.antt =====
-- The settings of the server in config.py: `ServerConfig`, its sources, and the lists that come as
-- one text with commas. pydantic is a parameter, with `F` for its numbers with a fraction.
pub mod Commas
use proxy_hopper_v.Common.{
  ℕ, Bool, true, false, Option, none, some, List, [], ◌∷◌, if◌then◌else◌, Text, codes, text_eq,
  Dict, Error, Result, ok, err,
}
use proxy_hopper_v.Strings.{strip, split}
use proxy_hopper_v.Strings.Ints.{ℤ, pos}
use proxy_hopper_v.Config.Loading.{Value, texts, text, normalise_server}

pub record ServerConfig (F : Type 0) : Type 0 where
  pub host : Text
  pub port : ℤ
  pub log_level : Text
  pub log_format : Text
  pub log_file : Option Text
  pub backend : Text
  pub redis_url : Text
  pub metrics : Bool
  pub metrics_port : ℤ
  pub probe : Bool
  pub probe_interval : F
  pub probe_timeout : F
  pub probe_urls : List Text

-- The values of a setting that no source has.
abbrev pub defaults : {F : Type 0} → F → F → ServerConfig F
defaults sixty ten = record {
  host = codes "0.0.0.0";
  port = pos 8080;
  log_level = codes "INFO";
  log_format = codes "text";
  log_file = none;
  backend = codes "memory";
  redis_url = codes "redis://localhost:6379/0";
  metrics = false;
  metrics_port = pos 9090;
  probe = false;
  probe_interval = sixty;
  probe_timeout = ten;
  probe_urls = codes "https://1.1.1.1" ∷ codes "https://www.google.com" ∷ [];
}

-- [u.strip() for u in … if u.strip()]
unfoldable pub stripped : List Text → List Text
stripped [] = []
stripped (u ∷ us) = let rest = stripped us in elim (strip u) [ [] ↦ rest | c ∷ s ↦ (c ∷ s) ∷ rest ]

-- [u.strip() for u in s.split(",") if u.strip()]
unfoldable pub comma_split : Text → List Text
unfolding stripped split
comma_split s = stripped (split b',' s)

module _ (F : Type 0) where
  -- prepare_field_value of `_CommaSplitEnvSource`; `super` is that of `EnvSettingsSource`.
  unfoldable pub prepare_field_value :
      (Text → Value F → Result (Value F)) → Text → Value F → Result (Value F)
  unfolding comma_split
  prepare_field_value super field_name (text s) =
      if text_eq field_name (codes "probe_urls")
      then ok (texts (comma_split s))
      else super field_name (text s)
  prepare_field_value super field_name value = super field_name value

  -- The sources of the settings, the one that counts most first.
  pub record Sources : Type 0 where
    pub init : Dict (Value F)
    pub env : Dict (Value F)
    pub dotenv : Dict (Value F)
    pub file_secret : Dict (Value F)

  unfoldable pub settings_customise_sources : Sources → List (Dict (Value F))
  settings_customise_sources s = s.init ∷ s.env ∷ s.dotenv ∷ s.file_secret ∷ []

  -- The end of `load_config`: ServerConfig(**_normalise_server(raw.get("server") or {})). pydantic
  -- makes the settings from the list of its sources.
  unfoldable pub load_server :
      (Text → Result F)
      → (F → ℕ → F)
      → (List (Dict (Value F)) → Result (ServerConfig F))
      → Sources
      → Dict (Value F)
      → Result (ServerConfig F)
  unfolding settings_customise_sources normalise_server
  load_server float times make others raw = elim (normalise_server F float times raw) [
    | err e ↦ err e
    | ok yaml_server ↦ make (settings_customise_sources (record others { init = yaml_server }))
  ]
