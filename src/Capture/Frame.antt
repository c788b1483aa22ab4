-- ===== src/Capture/Frame.antt =====
-- domain/snapshot_envelope.rs, domain/frame.rs and services/snapshot_consumer/local.rs: the envelope that a capture
-- produces, and the row of `frames` that it is flattened to. `Json`, its printer, the hash of `sha2` and
-- the word cutter of `jieba-rs` are parameters.
use corivo_desktop.Base.{
  ℕ, Bool, ◌&&◌, List, [], ◌∷◌, ◌++◌, Option, none, some, if◌then◌else◌, keep, any,
}
use corivo_desktop.Base.Text.{Text, codes, trim, is_empty}

pub data Trigger : Type 0 where
  focus_change : Trigger
  focused_window_changed : Trigger
  title_changed : Trigger
  quick_ask : Trigger
  manual : Trigger

abbrev pub trigger_str : Trigger → Text
trigger_str focus_change = codes "focus_change"
trigger_str focused_window_changed = codes "focused_window_changed"
trigger_str title_changed = codes "title_changed"
trigger_str quick_ask = codes "quick_ask"
trigger_str manual = codes "manual"

pub data ExtractionStrategy : Type 0 where
  ax : ExtractionStrategy
  ocr : ExtractionStrategy
  ax_ocr : ExtractionStrategy
  adapter : ExtractionStrategy
  skipped : ExtractionStrategy

abbrev pub strategy_str : ExtractionStrategy → Text
strategy_str ax = codes "ax"
strategy_str ocr = codes "ocr"
strategy_str ax_ocr = codes "ax+ocr"
strategy_str adapter = codes "adapter"
strategy_str skipped = codes "skipped"

pub record AppInfo : Type 0 where
  pub bundle_id : Option Text
  pub name : Option Text
  pub pid : Option ℕ

pub record WindowInfo : Type 0 where
  pub title : Option Text
  pub is_focused : Bool

pub record ScreenshotRef : Type 0 where
  pub path : Text
  pub hash : Text
  pub size_bytes : Option ℕ

pub record FrameSnapshot : Type 0 where
  pub app : AppInfo
  pub window : WindowInfo
  pub url : Option Text
  pub screenshot : Option ScreenshotRef

pub record ExtractionResult (Json : Type 0) : Type 0 where
  pub strategy : ExtractionStrategy
  pub ax_text : Option Text
  pub ocr_text : Option Text
  pub adapter_name : Option Text
  pub adapter_payload : Option Json
  pub selection : Option Text
  pub duration_ms : ℕ
  pub fallback_reason : Option Text

pub record RawDebug : Type 0 where
  pub ax_tree_json_path : Option Text
  pub exclusion_match : Option Text

abbrev pub envelope_version : ℕ
envelope_version = 1

pub record SnapshotEnvelope (Json : Type 0) : Type 0 where
  pub v : ℕ
  pub captured_at : ℕ
  pub device_id : Text
  pub session_id : Text
  pub frame : FrameSnapshot
  pub extraction : ExtractionResult Json
  pub trigger : Trigger
  pub raw : RawDebug

pub record NewFrame : Type 0 where
  pub captured_at : ℕ
  pub device_id : Text
  pub capture_session_id : Text
  pub app_bundle_id : Option Text
  pub app_name : Option Text
  pub window_title : Option Text
  pub url : Option Text
  pub screenshot_path : Option Text
  pub screenshot_hash : Option Text
  pub screenshot_size_bytes : Option ℕ
  pub ax_text : Option Text
  pub ocr_text : Option Text
  pub adapter_name : Option Text
  pub adapter_payload : Option Text
  pub extraction_strategy : Text
  pub extraction_duration_ms : Option ℕ
  pub fallback_reason : Option Text
  pub trigger : Text
  pub content_hash : Option Text
  pub exclusion_match : Option Text
  pub search_tokens : Option Text

-- `Option::map`, `and_then` and `unwrap_or("")`.
abbrev pub map_option : {A B : Type 0} → (A → B) → Option A → Option B
map_option f none = none
map_option f (some a) = some (f a)

abbrev and_then : {A B : Type 0} → Option A → (A → Option B) → Option B
and_then none f = none
and_then (some a) f = f a

abbrev or_empty : Option Text → Text
or_empty none = []
or_empty (some s) = s

-- The closure `push`, and its calls in order on those fields that are there.
unfoldable pub push : Text → Text → Text
push buf s =
    let t = trim s in if is_empty t then buf else (if is_empty buf then t else buf ++ (b' ' ∷ t))

unfoldable pub push_all : Text → List (Option Text) → Text
push_all buf [] = buf
push_all buf (none ∷ fields) = push_all buf fields
push_all buf (some s ∷ fields) = push_all (push buf s) fields

module _ (cut : Text → List Text) (is_alphanumeric : ℕ → Bool) where
  abbrev is_meaningful : Text → Bool
  is_meaningful tok = any is_alphanumeric tok

  abbrev join : List Text → Text
  join [] = []
  join (t ∷ []) = t
  join (t ∷ ts) = t ++ (b' ' ∷ join ts)

  unfoldable pub tokenize_for_index : Text → Text
  tokenize_for_index text = join (keep is_meaningful (cut text))

module _ {Json : Type 0} (print : Json → Text) (sha256_hex : Text → Text)
    (tokenize : Text → Text) where
  unfoldable pub build_search_tokens : SnapshotEnvelope Json → Option Text
  build_search_tokens env =
      let buf = push_all [] (
        env.frame.app.name ∷ env.frame.window.title ∷ env.frame.url ∷ env.extraction.ax_text
        ∷ env.extraction.ocr_text ∷ []) in
      if is_empty buf
      then none
      else let tokens = tokenize buf in (if is_empty tokens then none else some tokens)

  abbrev hash_of : Text → Text → Text → Option Text
  hash_of on_ax on_ocr payload =
      if is_empty on_ax && is_empty on_ocr && is_empty payload
      then none
      else some (codes "sha256:" ++ sha256_hex (on_ax ++ (b'|' ∷ (on_ocr ++ (b'|' ∷ payload)))))

  unfoldable pub compute_content_hash :
      ExtractionStrategy → Option Text → Option Text → Option Text → Option Text
  compute_content_hash skipped ax_text ocr_text payload = none
  compute_content_hash s ax_text ocr_text payload =
      hash_of (or_empty ax_text) (or_empty ocr_text) (or_empty payload)

  unfoldable pub envelope_to_new_frame : SnapshotEnvelope Json → NewFrame
  envelope_to_new_frame env = record {
    captured_at = env.captured_at;
    device_id = env.device_id;
    capture_session_id = env.session_id;
    app_bundle_id = env.frame.app.bundle_id;
    app_name = env.frame.app.name;
    window_title = env.frame.window.title;
    url = env.frame.url;
    screenshot_path = map_option (λ s. s.path) env.frame.screenshot;
    screenshot_hash = map_option (λ s. s.hash) env.frame.screenshot;
    screenshot_size_bytes = and_then env.frame.screenshot (λ s. s.size_bytes);
    ax_text = env.extraction.ax_text;
    ocr_text = env.extraction.ocr_text;
    adapter_name = env.extraction.adapter_name;
    adapter_payload = map_option print env.extraction.adapter_payload;
    extraction_strategy = strategy_str env.extraction.strategy;
    extraction_duration_ms = some env.extraction.duration_ms;
    fallback_reason = env.extraction.fallback_reason;
    trigger = trigger_str env.trigger;
    content_hash =
        compute_content_hash env.extraction.strategy env.extraction.ax_text env.extraction.ocr_text
          (map_option print env.extraction.adapter_payload);
    exclusion_match = env.raw.exclusion_match;
    search_tokens = build_search_tokens env;
  }
