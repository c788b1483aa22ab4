-- ===== src/Capture/Exclusion/Extras.antt =====
-- The user's entries: each one is blocked from then on, and nothing blocked before is let through.
use corivo_desktop.Base.{◌≡◌, inl, inr, true, false, List, [], ◌∷◌, some, arith, Any}
use corivo_desktop.Base.Text.{
  Text, trim, trim_idem, is_empty, to_ascii_lowercase, contains, contains-insert_self,
  contains-insert_old,
}
use corivo_desktop.Capture.Exclusion.{
  ExclusionEngine, is_blocked, is_executable_identifier, executable_key, add_extra, add_extras,
  with_extras, from_defaults, check,
}

-- Everything that the first engine blocks by name, the second blocks too.
record Extends (e e' : ExclusionEngine) : Type 0 where
  bundles :
      (s : Text) → contains e.blocked_bundle_ids s ≡ true → contains e'.blocked_bundle_ids s ≡ true
  executables :
      (s : Text)
      → contains e.blocked_executable_names s ≡ true
      → contains e'.blocked_executable_names s ≡ true

add_extra-Extends : (x : Text) (e : ExclusionEngine) → Extends e (add_extra x e)
unfolding add_extra
add_extra-Extends x e = record {
  bundles = λ s h. ground (arith, contains-insert_old (trim x) s e.blocked_bundle_ids h);
  executables = λ s h.
      ground (arith, contains-insert_old (executable_key (trim x)) s e.blocked_executable_names h);
}

add_extras-Extends : (xs : List Text) (e : ExclusionEngine) → Extends e (add_extras xs e)
unfolding add_extras
add_extras-Extends [] e = record { bundles = λ s h. h; executables = λ s h. h }
add_extras-Extends (x ∷ xs) e = record {
  bundles = λ s h.
      (add_extras-Extends xs (add_extra x e)).bundles s ((add_extra-Extends x e).bundles s h);
  executables = λ s h.
      (add_extras-Extends xs (add_extra x e)).executables s
        ((add_extra-Extends x e).executables s h);
}

check-Extends :
    (e e' : ExclusionEngine) (id : Text)
    → Extends e e'
    → is_blocked (check e (some id)) ≡ true
    → is_blocked (check e' (some id)) ≡ true
unfolding check
check-Extends e e' id x h = ground (arith, x.bundles id, x.executables (executable_key id))

check-add_extra :
    (x : Text) (e : ExclusionEngine)
    → is_empty (trim x) ≡ false
    → is_blocked (check (add_extra x e) (some (trim x))) ≡ true
unfolding check add_extra
check-add_extra x e h = ground (
  arith,
  contains-insert_self (trim x) e.blocked_bundle_ids,
  contains-insert_self (executable_key (trim x)) e.blocked_executable_names,
)

-- Once an entry of the list has been taken in, what it blocks stays blocked.
blocked_by_entry :
    (x id : Text) (xs : List Text) (e : ExclusionEngine)
    → ((d : ExclusionEngine) → is_blocked (check (add_extra x d) (some id)) ≡ true)
    → Any (λ y. y ≡ x) xs
    → is_blocked (check (add_extras xs e) (some id)) ≡ true
unfolding add_extras
blocked_by_entry x id [] e h m = absurd m
blocked_by_entry x id (y ∷ ys) e h (inl same) =
    check-Extends (add_extra y e) (add_extras ys (add_extra y e)) id
      (add_extras-Extends ys (add_extra y e)) (rw same (h e))
blocked_by_entry x id (y ∷ ys) e h (inr m) = blocked_by_entry x id ys (add_extra y e) h m

-- An entry of the user's list that is not blank, without the blanks around it, is blocked.
pub check-with_extras :
    (x : Text) (xs : List Text)
    → Any (λ y. y ≡ x) xs
    → is_empty (trim x) ≡ false
    → is_blocked (check (with_extras xs) (some (trim x))) ≡ true
unfolding with_extras
check-with_extras x xs m h =
    blocked_by_entry x (trim x) xs from_defaults (λ d. check-add_extra x d h) m

check-add_extra_case :
    (x id : Text) (e : ExclusionEngine)
    → is_empty (trim x) ≡ false
    → is_executable_identifier x ≡ true
    → executable_key id ≡ executable_key x
    → is_blocked (check (add_extra x e) (some id)) ≡ true
unfolding check add_extra is_executable_identifier executable_key
check-add_extra_case x id e h exe same = ground (
  arith,
  trim_idem x,
  contains-insert_self (to_ascii_lowercase (trim x)) e.blocked_executable_names,
)

-- An entry of the user's list that names a Windows executable blocks this name in any mixture of ASCII
-- upper and lower case, with or without blanks around it.
pub check-with_extras_case :
    (x id : Text) (xs : List Text)
    → Any (λ y. y ≡ x) xs
    → is_empty (trim x) ≡ false
    → is_executable_identifier x ≡ true
    → executable_key id ≡ executable_key x
    → is_blocked (check (with_extras xs) (some id)) ≡ true
unfolding with_extras
check-with_extras_case x id xs m h exe same =
    blocked_by_entry x id xs from_defaults (λ d. check-add_extra_case x id d h exe same) m

-- What the built-in lists block is blocked whatever the user adds.
pub check-with_extras_old :
    (id : Text) (xs : List Text)
    → is_blocked (check from_defaults (some id)) ≡ true
    → is_blocked (check (with_extras xs) (some id)) ≡ true
unfolding with_extras
check-with_extras_old id xs h =
    check-Extends from_defaults (add_extras xs from_defaults) id
      (add_extras-Extends xs from_defaults) h
