-- ===== src/Memory/Examples.antt =====
-- Witnesses: each theorem at a concrete input.
use corivo_desktop.Base.{
  arith, map, ℕ, ◌≡◌, refl, Bool, List, [], ◌∷◌, ◌++◌, none, some, ltb, leb, if◌then◌else◌, All,
  ◌*◌, ◌/◌,
}
use corivo_desktop.Base.Result.{ok}
use corivo_desktop.Base.Text.{Text, codes}
use corivo_desktop.Memory.{
  Scores, NoteHit, MessageHit, MemoryItem, RecallRequest, frame_cost, note_cost, recall, frame_item,
  note_item, session, user_explicit, active,
}
use corivo_desktop.Memory.Query.{tokenize_for_query, tokenize_for_query-read_query, read_query}
use corivo_desktop.Memory.Recalled.{
  recall_lem, IsAsymmetric, IsLayer, IsFrame, IsNote, IsMessageLayer,
}
use corivo_desktop.Capture.Tick.{Frame}

-- A cutter that gives two words, one with a quote in it and one that is `OR`, and a blank.
abbrev cut : Text → List Text
cut text = codes "a\"b" ∷ (codes " " ∷ (codes "OR" ∷ []))

abbrev is_letter : ℕ → Bool
is_letter c = leb 65 c

tokenize_for_query-read_query_example :
    (elim (tokenize_for_query cut is_letter (codes "a\"b OR")) [
      | none ↦ some []
      | some query ↦ read_query 2 query
    ])
    ≡ some (codes "a\"b" ∷ (codes "OR" ∷ []))
tokenize_for_query-read_query_example =
    tokenize_for_query-read_query cut is_letter (codes "a\"b OR")

-- Natural numbers as scores.
abbrev counted : Scores ℕ
counted = record {
  lt = ltb;
  max = λ a b. if ltb a b then b else a;
  mul = λ a b. a * b;
  div = λ a b. a / b;
  neg = λ a. a;
  exp = λ a. a;
  ln_2 = 1;
  of_nat = λ n. n;
  literal = λ n d. n / d;
}

abbrev here : MessageHit ℕ
here = record {
  id = codes "m1";
  thread_id = codes "t1";
  content_text = codes "hi";
  created_at = 5;
  score = 2;
}

abbrev there : MessageHit ℕ
there = record {
  id = codes "m2";
  thread_id = codes "t2";
  content_text = codes "ho";
  created_at = 6;
  score = 1;
}

abbrev long_note : NoteHit ℕ
long_note = record {
  id = codes "n1";
  content = codes "four spaces";
  scope = session;
  scope_ref = none;
  source_type = user_explicit;
  status = active;
  updated_at = 3;
  score = 4;
}

abbrev request : RecallRequest
request = record {
  user_message = codes "spaces";
  thread_id = some (codes "t1");
  project_id = none;
  budget = record { notes_chars = 20; frames_chars = 3000; messages_chars = 1500 };
  per_layer_top_n = 8;
}

ltb_asymmetric : IsAsymmetric counted
ltb_asymmetric a b h = ground arith

abbrev old_frame : Frame
old_frame = record {
  id = codes "f1";
  row = record {
    captured_at = 4;
    device_id = [];
    capture_session_id = codes "s";
    app_bundle_id = none;
    app_name = none;
    window_title = none;
    url = none;
    screenshot_path = none;
    screenshot_hash = none;
    screenshot_size_bytes = none;
    ax_text = none;
    ocr_text = some (codes "tabs");
    adapter_name = none;
    adapter_payload = none;
    extraction_strategy = codes "ocr";
    extraction_duration_ms = none;
    fallback_reason = none;
    trigger = codes "timer";
    content_hash = none;
    exclusion_match = none;
    search_tokens = none;
  };
}

recall_lem_example :
    (fs ns ms : List (MemoryItem ℕ)) × (recall counted
        (some (codes "q"))
        request
        (ok (old_frame ∷ []))
        (ok (long_note ∷ []))
        (ok (here ∷ (there ∷ [])))
        9
      ≡ fs ++ (ns ++ ms))
    × IsLayer counted frame_cost 3000 (map (frame_item counted 9) (old_frame ∷ [])) fs
    × All IsFrame fs
    × IsLayer counted note_cost 20 (map (note_item counted 9 none) (long_note ∷ [])) ns
    × All IsNote ns
    × IsMessageLayer counted (codes "t1") 9 1500 (here ∷ (there ∷ [])) ms
recall_lem_example =
    recall_lem counted (codes "q") request (ok (old_frame ∷ [])) (ok (long_note ∷ []))
      (ok (here ∷ (there ∷ []))) 9 (codes "t1") ltb_asymmetric refl
