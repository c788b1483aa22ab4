-- ===== src/Privacy/Filter.antt =====
-- services/privacy_filter/mod.rs and cache.rs: the service that classifies a text, or finds its spans
-- in the cache, and redacts it. The `lru` crate is the parameter `LruCache`, `blake3` the parameter `key_for`, and the
-- ONNX session, with whatever it loads from disk, the parameter `classify`.
pub mod Cached
use corivo_desktop.Base.{
  ℕ, ◌≡◌, ◌⊎◌, Bool, true, false, List, Option, none, some, not, if◌then◌else◌,
}
use corivo_desktop.Base.Text.{Text}
use corivo_desktop.Privacy.Label.{PiiSpan, PrivacySettings, CategoryToggles}
use corivo_desktop.Privacy.Redact.{redact}

-- What the program uses of `lru::LruCache`, and its documented behaviour.
pub record LruCache (K V : Type 0) : Type 1 where
  pub Store : Type 0
  pub get : K → Store → Option V × Store
  pub put : K → V → Store → Store
  pub clear : Store → Store
  pub empty : Store
  pub get-empty : (k : K) → (get k empty).0 ≡ none
  pub get-clear : (k : K) (s : Store) → (get k (clear s)).0 ≡ none
  pub get-put : (k : K) (v : V) (s : Store) → (get k (put k v s)).0 ≡ some v
  -- Another entry is as it was before, or has been evicted.
  pub put_old :
      (j k : K) (v w : V) (s : Store)
      → (get j (put k v s)).0 ≡ some w
      → (j ≡ k) ⊎ ((get j s).0 ≡ some w)
  pub get-get : (j k : K) (s : Store) → (get j (get k s).1).0 ≡ (get j s).0

-- `Store` is the cache's state and `Session` the ONNX session's.
pub record PrivacyFilter (Store Session : Type 0) : Type 0 where
  pub settings : PrivacySettings
  pub cache : Store
  pub session : Session

-- `settings.categories.secret = true`.
abbrev pub force_secret : PrivacySettings → PrivacySettings
force_secret s =
    let c : CategoryToggles = s.categories in record s { categories = record c { secret = true } }

module _ {Store Session : Type 0} where
  pub new : Store → PrivacySettings → Session → PrivacyFilter Store Session
  new empty settings session = record {
    settings = force_secret settings;
    cache = empty;
    session = session;
  }

  pub update_settings : PrivacySettings → PrivacyFilter Store Session → PrivacyFilter Store Session
  update_settings settings f = record f { settings = force_secret settings }

module _ {Key S Session : Type 0} (L : LruCache Key (List (PiiSpan S))) where
  open L use {Store, get, put, clear}

  pub clear_cache : PrivacyFilter Store Session → PrivacyFilter Store Session
  clear_cache f = record f { cache = clear f.cache }

module _ {Key S Session : Type 0} (L : LruCache Key (List (PiiSpan S))) (key_for : Text → Key)
    (classify : Session → Text → List (PiiSpan S) × Session) where
  open L use {Store, get, put}

  -- The cache's answer for the text, or the session's, which is then put in the cache.
  pub spans_for :
      PrivacyFilter Store Session → Text → List (PiiSpan S) × PrivacyFilter Store Session
  spans_for f text =
      let (cached, touched) = get (key_for text) f.cache in
      elim cached [
        | some spans ↦ (spans, record f { cache = touched })
        | none ↦
            let (spans, session') = classify f.session text in
            (spans, record f { cache = put (key_for text) spans touched; session = session' })
      ]

  pub classify_and_enforce :
      PrivacyFilter Store Session → Text → Option Text × PrivacyFilter Store Session
  classify_and_enforce f text =
      if not f.settings.enabled
      then (some text, f)
      else let (spans, f') = spans_for f text in (redact text spans f.settings.categories, f')
