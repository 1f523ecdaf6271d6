-- ===== src/Runlock/Pausing.antt =====
-- Pausing a run while it starts programs (internal/runlock/runlock.go `Pause`, `Resume` and
-- `StartUnpaused`, internal/runctl/runctl.go `Pause`, `Resume`, `Stop` and `resume`).
--
-- The run and the commands are interleaved: what the edit lock makes one step is one move, and the
-- two steps that `resume` of runctl.go takes without it are two.
use archiver.Shared.{
  Bool, Bytes, InRange, IsWord, List, [], all_of, codes, false, map, suc, true, zero, ℕ, ℤ, ◌+◌,
  ◌-◌, ◌==◌, ◌∷◌, ◌≡◌, nat_eq, bytes_eq, int_eq,
}
pub mod Frozen
use archiver.Runlock.{
  Lock, File, absent, unreadable, present, read_lock, acquired, set_stage, append_event, pause,
  pause_with, resume, resume_with, start_unpaused, paused, last_state, is_paused, ReadResult, Event,
  unpaused_with, unpaused, start_after, Write, wrote, landed, tore, is_wrote,
}
use archiver.Runlock.Implements.{is_whole}
use archiver.Runlock.Text.{IsPlainLock, print_lock, read_lock-print_lock}

-- A run: its lock file, whether each of its programs is frozen, and how many resumes have signalled
-- and not yet recorded it.
pub record System : Type 0 where
  pub file : File
  pub programs : List Bool
  pub resuming : ℕ

-- SIGSTOP and SIGCONT to everything the run started.
abbrev pub freeze : List Bool → List Bool
freeze ps = map (λ p. true) ps

abbrev pub thaw : List Bool → List Bool
thaw ps = map (λ p. false) ps

abbrev pub start : List Bool → List Bool
start ps = false ∷ ps

unfoldable pub drop_at : ℕ → List Bool → List Bool
drop_at n [] = []
drop_at zero (p ∷ ps) = ps
drop_at (suc n) (p ∷ ps) = p ∷ drop_at n ps

pub data Move : Type 0 where
  pauses : Write → ℤ → Move
  resumes : Write → ℤ → Move
  resume_signals : Move
  resume_records : Write → ℤ → Move
  -- whether the run is ending, and whether the edit lock can be taken
  starts : Bool → Bool → Move
  ends : ℕ → Move
  stages : Bool → Bytes → Bytes → Move
  records : Write → ℤ → Bytes → Move

unfoldable pub move : ℤ → Move → System → System
unfolding pause resume append_event start_unpaused drop_at set_stage
move pid (pauses writes at) s =
    let e = pause writes at freeze s.file s.programs in
    record s { file = e.file; programs = e.world }
move pid (resumes writes at) s =
    let e = resume writes at thaw s.file s.programs in
    record s { file = e.file; programs = e.world }
move pid resume_signals s = record s { programs = thaw s.programs; resuming = s.resuming + 1 }
move pid (resume_records writes at) s = record s {
  file = (append_event writes at (codes "running") s.file).1;
  resuming = s.resuming - 1;
}
move pid (starts ending locks) s = record s {
  programs = (start_unpaused ending locks start s.file s.programs).1;
}
move pid (ends n) s = record s { programs = drop_at n s.programs }
move pid (stages writes context stage) s = record s {
  file = (set_stage writes pid context stage s.file).1;
}
move pid (records writes at state) s = record s { file = (append_event writes at state s.file).1 }

-- A pause that returns an error has left nothing in the file.
abbrev pub is_clean : Write → Bool
is_clean wrote = true
is_clean landed = false
is_clean (tore n) = n == 0

-- What the run itself records is a word, and not "paused"; no part of a line is left in the file; a
-- pause that fails leaves nothing, and a resume does not fail; a program starts as the run is not
-- ending, and as the edit lock can be taken.
unfoldable pub IsPlainMove : Move → Type 0
IsPlainMove (pauses writes at) = InRange at × (is_clean writes ≡ true)
IsPlainMove (resumes writes at) = InRange at × (is_wrote writes ≡ true)
IsPlainMove resume_signals = Unit
IsPlainMove (resume_records writes at) = InRange at × (is_wrote writes ≡ true)
IsPlainMove (starts ending locks) = (ending ≡ false) × (locks ≡ true)
IsPlainMove (ends n) = Unit
IsPlainMove (stages writes context stage) = IsWord context × IsWord stage
IsPlainMove (records writes at state) =
    InRange at × IsWord state × (is_paused state ≡ false) × (is_whole writes ≡ true)

unfoldable pub moves : ℤ → List Move → System → System
unfolding move
moves pid [] s = s
moves pid (m ∷ ms) s = moves pid ms (move pid m s)

abbrev pub is_frozen : Bool → Bool
is_frozen p = p

-- The file shows a lock, and a lock that says paused, with no resume under way, means that every
-- program is frozen.
pub record IsHeld (s : System) : Type 0 where
  pub lock : Lock
  pub plain : IsPlainLock lock
  pub on_file : s.file ≡ present (print_lock lock)
  pub frozen : paused lock ≡ true → s.resuming ≡ 0 → all_of is_frozen s.programs ≡ true
