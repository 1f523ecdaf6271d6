-- ===== src/Runlock/Spaces.antt =====
-- A context with a space in it, in the lock file (internal/runlock/runlock.go `SetStage`,
-- internal/lockstate/lockstate.go `ReadLock`).
use archiver.Shared.{
  Bytes, IsWord, [], all_of, append_assoc, fields, fields-last, fields-word, in_line, itoa, refl,
  split_lines-line, true, ℤ, ◌++◌, ◌∷◌, ◌≡◌,
}
use archiver.Inuse.Format.{itoa-IsWord}
use archiver.Runlock.{read_lock, set_stage, present, lock_of, owner_of, owner_text}
use archiver.Runlock.Text.{IsWord-in_line, joined-in_line}

-- Once a run has recorded a stage whose context is two words separated by a space, such as the
-- directory of a service, the lock reads back with the first word as its context, and the second word
-- takes the place of the stage.
pub read_lock-spaced :
    (pid : ℤ) (left right stage text : Bytes)
    → IsWord left
    → IsWord right
    → IsWord stage
    → let l = (read_lock (set_stage true pid (left ++ b' ' ∷ right) stage (present text)).1).lock in
      (l.context ≡ left) × (l.stage ≡ right)
unfolding read_lock set_stage owner_text lock_of owner_of
read_lock-spaced pid left right stage text l r s =
    let line : all_of in_line (itoa pid ++ b' ' ∷ ((left ++ b' ' ∷ right) ++ b' ' ∷ stage)) ≡ true =
      joined-in_line (itoa pid) ((left ++ b' ' ∷ right) ++ b' ' ∷ stage)
        (IsWord-in_line _ (itoa-IsWord pid))
        (joined-in_line (left ++ b' ' ∷ right) stage
          (joined-in_line left right (IsWord-in_line left l) (IsWord-in_line right r))
          (IsWord-in_line stage s)) in
    let words : fields (itoa pid ++ b' ' ∷ ((left ++ b' ' ∷ right) ++ b' ' ∷ stage))
        ≡ itoa pid ∷ left ∷ right ∷ stage ∷ [] =
      rw (
        append_assoc left (b' ' ∷ right) (b' ' ∷ stage),
        fields-word (itoa pid) (left ++ b' ' ∷ (right ++ b' ' ∷ stage)) (itoa-IsWord pid),
        fields-word left (right ++ b' ' ∷ stage) l,
        fields-word right stage r,
        fields-last stage s,
      ) in
    (
      rw (split_lines-line _ _ line, lock_of, owner_text, words) refl,
      rw (split_lines-line _ _ line, lock_of, owner_text, words) refl,
    )
