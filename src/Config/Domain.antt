-- ===== src/Config/Domain.antt =====
-- domain/config.rs: the settings. The type `C` stands for
-- `f32`; a time is a number, and a map is a list of its entries.
use corivo_desktop.Base.{ℕ, Bool, List, Option}
use corivo_desktop.Base.Text.{Text}
use corivo_desktop.Privacy.Label.{PrivacySettings}

pub record ChatgptAuthConfig : Type 0 where
  pub access_token : Option Text
  pub refresh_token : Option Text
  pub id_token : Option Text
  pub account_id : Option Text
  pub plan_type : Option Text
  pub email : Option Text
  pub expires_at : Option Text

pub data ApiShape : Type 0 where
  anthropic openai openai_responses : ApiShape

pub data ThinkingLevel : Type 0 where
  off minimal low medium high xhigh : ThinkingLevel

pub record CorivoSessionConfig : Type 0 where
  pub access_token : Option Text
  pub access_expires_at : Option Text
  pub refresh_token : Option Text
  pub refresh_expires_at : Option Text

pub record ProviderAccount : Type 0 where
  pub provider : Text
  pub account_id : Text
  pub email : Option Text
  pub display_name : Option Text
  pub avatar_url : Option Text
  pub granted_scopes : List Text
  pub connected_at : Text
  pub last_refresh_at : Option Text
  pub needs_reauth : Bool
  pub access_token : Option Text
  pub refresh_token : Option Text
  pub expires_at : Option Text

pub record ConnectorsConfig : Type 0 where
  pub enabled : List Text
  pub accounts : List (Text × ProviderAccount)
  pub bindings : List (Text × Text)

pub record SkillShareConfig : Type 0 where
  pub enabled : List Text
  pub initialized : Bool

pub data ExecAgentAuthMode : Type 0 where
  corivo_proxy byok chatgpt_login : ExecAgentAuthMode

pub record ExecAgentConfig : Type 0 where
  pub auth_mode : ExecAgentAuthMode
  pub selected_model_id : Option Text
  pub byok_api_shape : Option ApiShape
  pub byok_base_url : Option Text
  pub byok_key : Option Text
  pub byok_model : Option Text
  pub thinking_level : ThinkingLevel
  pub skill_share : SkillShareConfig
  pub chatgpt : ChatgptAuthConfig

pub record ExclusionConfig : Type 0 where
  pub extra_app_bundle_ids : List Text
  pub extra_website_patterns : List Text

pub record ReconcileConfig : Type 0 where
  pub enabled : Bool
  pub merge_enabled : Bool
  pub stream_enabled : Bool
  pub interval_hours : ℕ
  pub min_workcontexts_per_project_for_stream : ℕ

pub record FocusSessionConfig : Type 0 where
  pub enabled : Bool
  pub gap_minutes : ℕ
  pub idle_close_multiplier : ℕ
  pub max_session_hours : ℕ

pub record CaptureConfig : Type 0 where
  pub interval_secs : ℕ
  pub batch_size : ℕ
  pub max_storage_gb : ℕ
  pub jpeg_quality : ℕ
  pub broadcast_capacity : ℕ

pub record PromptDebugConfig : Type 0 where
  pub summary_override : Option Text
  pub push_judgment_override : Option Text
  pub suggest_override : Option Text
  pub score_override : Option Text

pub data SoulPreset : Type 0 where
  gentle accomplice old_friend coach custom : SoulPreset

pub record SoulConfig : Type 0 where
  pub preset : SoulPreset
  pub custom_text : Option Text

pub data ThemePreference : Type 0 where
  light dark system : ThemePreference

pub data Language : Type 0 where
  zh en : Language

pub record AppConfig : Type 0 where
  pub minimize_to_tray : Bool
  pub ui_language : Language
  pub response_language : Language
  pub start_capture_on_launch : Bool
  pub onboarding_completed : Bool
  pub onboarding_version : ℕ
  pub onboarding_step : Option Text
  pub theme : ThemePreference
  pub first_quick_ask_done : Bool
  pub capture_paused_until : Option ℕ
  pub developer_mode : Bool

pub record BatcherConfig : Type 0 where
  pub min_batch_size : ℕ
  pub flush_interval_ms : ℕ

pub record RetrievalConfig (C : Type 0) : Type 0 where
  pub w_confidence : C
  pub w_decay : C
  pub k_decay_days : C
  pub limit_multiplier : ℕ

pub record PipelineConfig : Type 0 where
  pub similar_pool_size : ℕ
  pub min_draft_count : ℕ

pub record UserModelConfig (C : Type 0) : Type 0 where
  pub batcher : BatcherConfig
  pub retrieval : RetrievalConfig C
  pub pipeline : PipelineConfig

pub record Config (C : Type 0) : Type 0 where
  pub capture : CaptureConfig
  pub app : AppConfig
  pub prompt_debug : PromptDebugConfig
  pub user_model : UserModelConfig C
  pub soul : SoulConfig
  pub reconcile : ReconcileConfig
  pub focus_session : FocusSessionConfig
  pub exclusion : ExclusionConfig
  pub exec_agent : ExecAgentConfig
  pub corivo_session : CorivoSessionConfig
  pub connectors : ConnectorsConfig
  pub privacy_filter : PrivacySettings
