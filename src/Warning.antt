-- ===== src/Warning.antt =====
-- src/warning.rs: warnings that leave the announce in force and are told to the client.
pub mod Message
use unit3d_announce.Prelude.{
  ℕ, ◌+◌, ◌-◌, ◌*◌, Bool, true, false, Option, none, some, List, [], ◌∷◌, ◌++◌, length, take,
  if◌then◌else◌,
}
use unit3d_announce.Prelude.Bytes.{bytes}

pub data AnnounceWarning : Type 0 where
  rate_limit_exceeded hit_download_slot_limit connectivity_issue_detected : AnnounceWarning

-- The texts of `#[error(…)]`.
unfoldable pub to_string : AnnounceWarning → List ℕ
to_string rate_limit_exceeded = bytes "Rate limit exceeded. Please wait."
to_string hit_download_slot_limit = bytes "Download slot limit reached"
to_string connectivity_issue_detected =
    bytes "Connectivity issue detected. Enable port-forwarding to resolve."

unfoldable pub is_silent : AnnounceWarning → Bool
is_silent rate_limit_exceeded = true
is_silent _ = false

abbrev pub separator : List ℕ
separator = bytes "; "

-- `WarningCollection` is the list of its warnings.
unfoldable pub max_byte_length : List AnnounceWarning → ℕ
max_byte_length warnings = length warnings * (64 + length separator)

unfoldable pub add : List AnnounceWarning → AnnounceWarning → List AnnounceWarning
add warnings warning = warnings ++ warning ∷ []

abbrev pub is_empty {ℓ} : {A : Type ℓ} → List A → Bool
is_empty [] = true
is_empty (x ∷ xs) = false

-- The `for_each` of `into_message`, onto the message so far.
unfoldable pub extend_message : List ℕ → List AnnounceWarning → List ℕ
extend_message message [] = message
extend_message message (w ∷ ws) =
    extend_message (if is_silent w then message else (message ++ to_string w) ++ separator) ws

unfoldable pub into_message : List AnnounceWarning → Option (List ℕ)
unfolding extend_message
into_message warnings =
    if is_empty warnings
    then none
    else let message = extend_message [] warnings in
      if is_empty message then none else some (take (length message - length separator) message)
