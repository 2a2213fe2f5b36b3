-- ===== src/Warning/Message.antt =====
-- The message of src/warning.rs to the client.
use unit3d_announce.Prelude.{
  ℕ, ◌+◌, ◌-◌, ◌≤◌, ◌≡◌, refl, ap, ◌∙◌, sym, inl, inr, false, none, some, List, [], Bool-cases, ◌∷◌,
  ◌++◌, length, length-append, take, arith, if◌then◌else◌,
}
use mathlib.Core.List.{append-nil, append_assoc}
use unit3d_announce.Warning.{
  AnnounceWarning, rate_limit_exceeded, hit_download_slot_limit, connectivity_issue_detected,
  to_string, is_silent, separator, max_byte_length, is_empty, extend_message, into_message,
}

-- The warnings that are told, in order.
abbrev pub told : List AnnounceWarning → List AnnounceWarning
told [] = []
told (w ∷ ws) = if is_silent w then told ws else w ∷ told ws

-- The texts with a separator between each two.
abbrev pub joined : List AnnounceWarning → List ℕ
joined [] = []
joined (w ∷ []) = to_string w
joined (w ∷ v ∷ ws) = to_string w ++ (separator ++ joined (v ∷ ws))

-- The texts with a separator behind each.
ended : List AnnounceWarning → List ℕ
ended [] = []
ended (w ∷ ws) = to_string w ++ (separator ++ ended ws)

extend_message-ended :
    (message : List ℕ) (ws : List AnnounceWarning)
    → extend_message message ws ≡ message ++ ended (told ws)
unfolding extend_message ended
extend_message-ended message [] = simp append-nil
extend_message-ended message (w ∷ ws) = elim (Bool-cases (is_silent w)) [
  | inl quiet ↦ rw quiet (extend_message-ended message ws)
  | inr loud ↦
      rw loud (extend_message-ended ((message ++ to_string w) ++ separator) ws ∙ simp append_assoc)
]

ended-joined :
    (w : AnnounceWarning) (ws : List AnnounceWarning)
    → ended (w ∷ ws) ≡ joined (w ∷ ws) ++ separator
unfolding ended
ended-joined w [] = simp append-nil
ended-joined w (v ∷ ws) = simp (ended-joined v ws, append_assoc)

take-append : (xs ys : List ℕ) → take (length xs) (xs ++ ys) ≡ xs
take-append [] ys = refl
take-append (x ∷ xs) ys = ap (◌∷◌ x) (take-append xs ys)

truncate_separator :
    (xs : List ℕ) → take (length (xs ++ separator) - length separator) (xs ++ separator) ≡ xs
truncate_separator xs =
    let e : length (xs ++ separator) - length separator ≡ length xs =
      omega (arith, length-append xs separator) in
    rw e (take-append xs separator)

is_empty-append : (xs : List ℕ) → is_empty (xs ++ separator) ≡ false
is_empty-append [] = refl
is_empty-append (x ∷ xs) = refl

end_message :
    (ws : List AnnounceWarning)
    → (if is_empty (ended ws)
        then none
        else some (take (length (ended ws) - length separator) (ended ws)))
      ≡ (if is_empty ws then none else some (joined ws))
unfolding ended
end_message [] = refl
end_message (w ∷ ws) =
    rw (ended-joined w ws, is_empty-append (joined (w ∷ ws)))
      (ap some (truncate_separator (joined (w ∷ ws))))

-- The message is absent exactly when no warning is told; else it has the texts of the warnings that
-- are told, in order, with a separator between each two and none at the end.
pub into_message_lem :
    (ws : List AnnounceWarning)
    → into_message ws ≡ (if is_empty (told ws) then none else some (joined (told ws)))
unfolding into_message
into_message_lem [] = refl
into_message_lem (w ∷ ws) = rw (extend_message-ended [] (w ∷ ws)) (end_message (told (w ∷ ws)))

-- No warning's text is longer than 64 bytes.
to_string_bound : (w : AnnounceWarning) → length (to_string w) ≤ 64
unfolding to_string
to_string_bound rate_limit_exceeded = omega arith
to_string_bound hit_download_slot_limit = omega arith
to_string_bound connectivity_issue_detected = omega arith

length-ended : (ws : List AnnounceWarning) → length (ended (told ws)) ≤ max_byte_length ws
unfolding ended max_byte_length
length-ended [] = omega arith
length-ended (w ∷ ws) = elim (Bool-cases (is_silent w)) [
  | inl quiet ↦ rw quiet (omega (arith, length-ended ws))
  | inr loud ↦
      let e : length (ended (w ∷ told ws))
          ≡ length (to_string w) + length (separator ++ ended (told ws)) =
        length-append (to_string w) (separator ++ ended (told ws)) in
      let bound : length (ended (w ∷ told ws)) ≤ max_byte_length (w ∷ ws) =
        omega (
          arith,
          length-ended ws,
          to_string_bound w,
          e,
          length-append separator (ended (told ws)),
        ) in
      rw loud bound
]

-- The message never outgrows `max_byte_length`, the capacity that is reserved for it.
pub length-into_message :
    (ws : List AnnounceWarning) {m : List ℕ}
    → into_message ws ≡ some m
    → length m ≤ max_byte_length ws
length-into_message ws {m} h = fits (told ws) (length-ended ws) (sym (into_message_lem ws) ∙ h)
  where
    fits :
        (ts : List AnnounceWarning)
        → length (ended ts) ≤ max_byte_length ws
        → (if is_empty ts then none else some (joined ts)) ≡ some m
        → length m ≤ max_byte_length ws
    fits [] b e = absurd (ground arith)
    fits (t ∷ ts) b e =
        let same : joined (t ∷ ts) ≡ m = ground arith in
        omega (
          arith,
          ap length (ended-joined t ts),
          length-append (joined (t ∷ ts)) separator,
          ap length same,
        )
