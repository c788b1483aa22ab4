-- ===== src/Config/Defaults.antt =====
-- domain/config.rs: the defaults.
use corivo_desktop.Base.{Bool, true, false, [], none, some, if◌then◌else◌}
use corivo_desktop.Base.Text.{codes}
use corivo_desktop.Base.Float.{F32}
use corivo_desktop.Privacy.Label.{default_settings}
use corivo_desktop.Config.Domain.{
  ChatgptAuthConfig, ConnectorsConfig, ExecAgentAuthMode, ExecAgentConfig, AppConfig,
  UserModelConfig, Config, off, corivo_proxy, byok, gentle, system, en, ReconcileConfig,
  FocusSessionConfig, CaptureConfig, BatcherConfig, RetrievalConfig, PipelineConfig,
}

abbrev pub default_chatgpt : ChatgptAuthConfig
default_chatgpt = record {
  access_token = none;
  refresh_token = none;
  id_token = none;
  account_id = none;
  plan_type = none;
  email = none;
  expires_at = none;
}

abbrev pub default_connectors : ConnectorsConfig
default_connectors = record { enabled = []; accounts = []; bindings = [] }

abbrev pub default_app : AppConfig
default_app = record {
  minimize_to_tray = true;
  ui_language = en;
  response_language = en;
  start_capture_on_launch = true;
  onboarding_completed = false;
  onboarding_version = 0;
  onboarding_step = none;
  theme = system;
  first_quick_ask_done = false;
  capture_paused_until = none;
  developer_mode = false;
}

-- Whether the cargo feature `corivo-cloud` is on.
abbrev pub default_auth_mode : Bool → ExecAgentAuthMode
default_auth_mode corivo_cloud = if corivo_cloud then corivo_proxy else byok

abbrev pub default_exec_agent : Bool → ExecAgentConfig
default_exec_agent corivo_cloud = record {
  auth_mode = default_auth_mode corivo_cloud;
  selected_model_id = some (codes "claude-sonnet-4-6");
  byok_api_shape = none;
  byok_base_url = none;
  byok_key = none;
  byok_model = none;
  thinking_level = off;
  skill_share = record { enabled = []; initialized = false };
  chatgpt = default_chatgpt;
}

abbrev pub default_reconcile : ReconcileConfig
default_reconcile = record {
  enabled = true;
  merge_enabled = true;
  stream_enabled = true;
  interval_hours = 24;
  min_workcontexts_per_project_for_stream = 5;
}

abbrev pub default_focus_session : FocusSessionConfig
default_focus_session = record {
  enabled = true;
  gap_minutes = 30;
  idle_close_multiplier = 2;
  max_session_hours = 4;
}

abbrev pub default_capture : CaptureConfig
default_capture = record {
  interval_secs = 60;
  batch_size = 5;
  max_storage_gb = 5;
  jpeg_quality = 75;
  broadcast_capacity = 64;
}

abbrev pub default_batcher : BatcherConfig
default_batcher = record { min_batch_size = 5; flush_interval_ms = 30000 }

abbrev pub default_pipeline : PipelineConfig
default_pipeline = record { similar_pool_size = 20; min_draft_count = 1 }

-- The number 14.0 is an argument.
abbrev pub default_retrieval : (F : F32) → F.Carrier → RetrievalConfig F.Carrier
default_retrieval F fourteen = record {
  w_confidence = F.one;
  w_decay = F.one;
  k_decay_days = fourteen;
  limit_multiplier = 3;
}

abbrev pub default_user_model : (F : F32) → F.Carrier → UserModelConfig F.Carrier
default_user_model F fourteen = record {
  batcher = default_batcher;
  retrieval = default_retrieval F fourteen;
  pipeline = default_pipeline;
}

abbrev pub default_config : Bool → (F : F32) → F.Carrier → Config F.Carrier
default_config corivo_cloud F fourteen = record {
  capture = default_capture;
  app = default_app;
  prompt_debug = record {
    summary_override = none;
    push_judgment_override = none;
    suggest_override = none;
    score_override = none;
  };
  user_model = default_user_model F fourteen;
  soul = record { preset = gentle; custom_text = none };
  reconcile = default_reconcile;
  focus_session = default_focus_session;
  exclusion = record { extra_app_bundle_ids = []; extra_website_patterns = [] };
  exec_agent = default_exec_agent corivo_cloud;
  corivo_session = record {
    access_token = none;
    access_expires_at = none;
    refresh_token = none;
    refresh_expires_at = none;
  };
  connectors = default_connectors;
  privacy_filter = default_settings;
}
