-- ===== src/Memory/Recalled.antt =====
-- What a recall gives.
use corivo_desktop.Base.{
  ℕ, ◌≡◌, ◌≢◌, not, refl, subst, inl, inr, Bool, true, false, List, [], ◌∷◌, ◌++◌, map, Option,
  some, arith, Bool-cases, All, keep, ◌<◌,
}
use corivo_desktop.Base.Result.{Result}
use corivo_desktop.Base.Text.{Text, text_eq, text_eq_sound, text_eq_refl}
use corivo_desktop.Base.Sift.{Sifted, keep-Sifted, All-each}
use mathlib.Core.List.{Perm}
use corivo_desktop.Capture.Tick.{Frame}
use corivo_desktop.Memory.{
  Scores, NoteHit, MessageHit, MemoryItem, RecallRequest, frame_cost, note_cost, message_cost,
  pack_within_budget, by_score, frame_item, score_and_pack_frames, note_item, score_and_pack_notes,
  is_elsewhere, message_item, score_and_pack_messages, hits_of, recall, frame, note, message,
}
use corivo_desktop.Memory.Packing.{pack_within_budget-IsPacked, IsPacked}
use corivo_desktop.Privacy.Redact.Sort.{All-sort_by, sort_by-Perm, sort_by-IsLinked, IsLinked}

abbrev pub IsFrame : {C : Type 0} → MemoryItem C → Type 0
IsFrame (frame id excerpt score ts app title) = Unit {0}
IsFrame (note id content score scope source status) = ⊥
IsFrame (message id thread content score ts) = ⊥

abbrev pub IsNote : {C : Type 0} → MemoryItem C → Type 0
IsNote (frame id excerpt score ts app title) = ⊥
IsNote (note id content score scope source status) = Unit {0}
IsNote (message id thread content score ts) = ⊥

-- A message of another thread.
abbrev pub IsOtherMessage : {C : Type 0} → Text → MemoryItem C → Type 0
IsOtherMessage tid (frame id excerpt score ts app title) = ⊥
IsOtherMessage tid (note id content score scope source status) = ⊥
IsOtherMessage tid (message id thread content score ts) = thread ≢ tid

text_eq-false : (s t : Text) → text_eq s t ≡ false → s ≢ t
text_eq-false s t h q =
    let e : text_eq s t ≡ true = subst (λ x. text_eq s x ≡ true) q (text_eq_refl s) in absurd cc

module _ {C : Type 0} where
  All-of_prefix :
      (P : MemoryItem C → Type 0) (xs rest : List (MemoryItem C)) → All P (xs ++ rest) → All P xs
  All-of_prefix P [] rest h = tt
  All-of_prefix P (x ∷ xs) rest h = (h.0, All-of_prefix P xs rest h.1)

  All-map_item :
      (P : MemoryItem C → Type 0) (xs : List (C × MemoryItem C))
      → All (λ x. P x.1) xs
      → All P (map (λ x. x.1) xs)
  All-map_item P [] h = tt
  All-map_item P (x ∷ xs) h = (h.0, All-map_item P xs h.1)

module _ {A C : Type 0} (P : MemoryItem C → Type 0) (item : A → C × MemoryItem C) where
  All-items : (xs : List A) → ((a : A) → P (item a).1) → All (λ x. P x.1) (map item xs)
  All-items [] h = tt
  All-items (a ∷ xs) h = (h a, All-items xs h)

  All-kept_items :
      (p : A → Bool) (xs : List A)
      → ((a : A) → p a ≡ true → P (item a).1)
      → All (λ x. P x.1) (map item (keep p xs))
  All-kept_items p [] h = tt
  All-kept_items p (a ∷ xs) h = elim (Bool-cases (p a)) [
    | inl e ↦ rw e (h a e, All-kept_items p xs h)
    | inr e ↦ rw e (All-kept_items p xs h)
  ]

module _ {C : Type 0} (R : Scores C) where
  -- Of the scored items, with the highest score first, those that the budget has room for.
  abbrev pub IsLayer :
      (MemoryItem C → ℕ) → ℕ → List (C × MemoryItem C) → List (MemoryItem C) → Type 0
  IsLayer cost_of budget scored packed =
      (ranked : List (C × MemoryItem C)) × Perm scored ranked
      × IsLinked (λ x y. R.lt x.0 y.0 ≡ false) ranked
      × IsPacked cost_of budget (map (λ x. x.1) ranked) packed

  abbrev pub IsAsymmetric : Type 0
  IsAsymmetric = (a b : C) → R.lt a b ≡ true → R.lt b a ≡ false

  pack_within_budget-IsLayer :
      (P : MemoryItem C → Type 0) (cost_of : MemoryItem C → ℕ) (scored : List (C × MemoryItem C))
      (budget : ℕ)
      → IsAsymmetric
      → All (λ x. 0 < cost_of x.1) scored
      → All (λ x. P x.1) scored
      → let packed = pack_within_budget (by_score R scored) budget cost_of in
        IsLayer cost_of budget scored packed × All P packed
  pack_within_budget-IsLayer P cost_of scored budget asym pos h =
      let (fits, left) =
        pack_within_budget-IsPacked cost_of (by_score R scored) budget
          (All-sort_by (λ x. 0 < cost_of x.1) _ scored pos) in
      let (rest, e, full) = left in
      (
        (
          by_score R scored,
          sort_by-Perm (λ a b. not (R.lt a.0 b.0)) scored,
          sort_by-IsLinked (λ x y. R.lt x.0 y.0 ≡ false) (λ a b. not (R.lt a.0 b.0))
              (λ a b q. ground arith) (λ a b q. asym a.0 b.0 (ground arith)) scored,
          (fits, (rest, e, full)),
        ),
        All-of_prefix P _ rest (
            subst (All P) e
              (All-map_item P (by_score R scored) (All-sort_by (λ x. P x.1) _ scored h))),
      )

  frame_item-IsFrame :
      (now : ℕ) (f : Frame)
      → IsFrame (frame_item R now f).1 × (0 < frame_cost (frame_item R now f).1)
  unfolding frame_item
  frame_item-IsFrame now f = (tt, omega arith)

  note_item-IsNote :
      (now : ℕ) (project_id : Option Text) (hit : NoteHit C)
      → IsNote (note_item R now project_id hit).1
        × (0 < note_cost (note_item R now project_id hit).1)
  unfolding note_item
  note_item-IsNote now project_id hit = (tt, omega arith)

  message_item-IsOtherMessage :
      (tid : Text) (now : ℕ) (hit : MessageHit C)
      → is_elsewhere R (some tid) hit ≡ true
      → IsOtherMessage tid (message_item R now hit).1
  unfolding message_item
  message_item-IsOtherMessage tid now hit h = text_eq-false hit.thread_id tid (ground arith)

  message_item-cost : (now : ℕ) (hit : MessageHit C) → 0 < message_cost (message_item R now hit).1
  unfolding message_item
  message_item-cost now hit = omega arith

  score_and_pack_frames-IsLayer :
      (hits : List Frame) (now budget : ℕ)
      → IsAsymmetric
      → IsLayer frame_cost budget
          (map (frame_item R now) hits)
          (score_and_pack_frames R hits now budget)
        × All IsFrame (score_and_pack_frames R hits now budget)
  unfolding score_and_pack_frames
  score_and_pack_frames-IsLayer hits now budget asym =
      pack_within_budget-IsLayer IsFrame frame_cost (map (frame_item R now) hits) budget asym
        (All-items (λ x. 0 < frame_cost x) (frame_item R now) hits
          (λ f. (frame_item-IsFrame now f).1))
        (All-items IsFrame (frame_item R now) hits (λ f. (frame_item-IsFrame now f).0))

  score_and_pack_notes-IsLayer :
      (hits : List (NoteHit C)) (now budget : ℕ) (project_id : Option Text)
      → IsAsymmetric
      → IsLayer note_cost budget
          (map (note_item R now project_id) hits)
          (score_and_pack_notes R hits now budget project_id)
        × All IsNote (score_and_pack_notes R hits now budget project_id)
  unfolding score_and_pack_notes
  score_and_pack_notes-IsLayer hits now budget project_id asym =
      pack_within_budget-IsLayer IsNote note_cost (map (note_item R now project_id) hits) budget
        asym
        (All-items (λ x. 0 < note_cost x) (note_item R now project_id) hits
          (λ f. (note_item-IsNote now project_id f).1))
        (All-items IsNote (note_item R now project_id) hits
          (λ f. (note_item-IsNote now project_id f).0))

  -- The messages of other threads, and what is packed of them.
  abbrev pub IsMessageLayer : Text → ℕ → ℕ → List (MessageHit C) → List (MemoryItem C) → Type 0
  IsMessageLayer tid now budget hits packed =
      (kept : List (MessageHit C)) × Sifted (λ h. h.thread_id ≢ tid) (λ h. h.thread_id ≡ tid) hits
        kept
      × IsLayer message_cost budget (map (message_item R now) kept) packed
      × All (IsOtherMessage tid) packed

  score_and_pack_messages-IsMessageLayer :
      (hits : List (MessageHit C)) (now budget : ℕ) (tid : Text)
      → IsAsymmetric
      → IsMessageLayer tid now budget hits (score_and_pack_messages R hits now budget (some tid))
  unfolding score_and_pack_messages
  score_and_pack_messages-IsMessageLayer hits now budget tid asym =
      let kept = keep (is_elsewhere R (some tid)) hits in
      let (packed, others) =
        pack_within_budget-IsLayer (IsOtherMessage tid) message_cost (map (message_item R now) kept)
          budget asym
          (All-items (λ x. 0 < message_cost x) (message_item R now) kept (message_item-cost now))
          (All-kept_items (IsOtherMessage tid) (message_item R now) (is_elsewhere R (some tid)) hits
            (message_item-IsOtherMessage tid now)) in
      (
        kept,
        keep-Sifted _ _ (is_elsewhere R (some tid)) hits (
            All-each _ hits (λ h. (
              λ q. text_eq-false h.thread_id tid (ground arith),
              λ q. text_eq_sound h.thread_id tid (ground arith),
            ))),
        packed,
        others,
      )

  -- For a question from thread `tid`, if the order of scores is asymmetric, the items of a recall are those of the frames, then those of
  -- the notes, then those of the messages. Those of the frames are frames, and of the items of all frames found, ranked by their scores,
  -- the first ones that the budget of the frames has room for: no more than that, but for a single one, and no fewer. The same
  -- holds of the notes, and of the messages once those of the thread itself are left out.
  pub recall_lem :
      (query : Text) (req : RecallRequest) (frames : Result (List Frame) Text)
      (notes : Result (List (NoteHit C)) Text) (messages : Result (List (MessageHit C)) Text)
      (now : ℕ) (tid : Text)
      → IsAsymmetric
      → req.thread_id ≡ some tid
      → (fs ns ms : List (MemoryItem C)) × (recall R (some query) req frames notes messages now
          ≡ fs ++ (ns ++ ms))
        × IsLayer frame_cost req.budget.frames_chars (map (frame_item R now) (hits_of R frames)) fs
        × All IsFrame fs
        × IsLayer note_cost req.budget.notes_chars
            (map (note_item R now req.project_id) (hits_of R notes))
            ns
        × All IsNote ns
        × IsMessageLayer tid now req.budget.messages_chars (hits_of R messages) ms
  unfolding recall
  recall_lem query req frames notes messages now tid asym h = rw h (
      let f = score_and_pack_frames-IsLayer (hits_of R frames) now req.budget.frames_chars asym in
      let n =
        score_and_pack_notes-IsLayer (hits_of R notes) now req.budget.notes_chars req.project_id
          asym in
      let m =
        score_and_pack_messages-IsMessageLayer (hits_of R messages) now req.budget.messages_chars
          tid asym in
      (_, _, _, refl, f.0, f.1, n.0, n.1, m))
