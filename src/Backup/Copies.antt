-- ===== src/Backup/Copies.antt =====
-- The copies to the secondaries that a backup makes itself (internal/pipeline/backup.go: the probes
-- of `main`, `copies`, `copyLegs`, `reachable`, `outsideWindow`, `targetCheckins`). What a window, a
-- probe, a lock and a copy answer is a function of the moment and of the storage's name; the map of
-- what is down, and of what is held for its window, is a function of the name. Copies that run at
-- once end in any order: here in the order in which they started.
use archiver.Shared.{
  Bool, Bytes, List, [], contains, false, if◌then◌else◌, keep, map, not, true, ◌&&◌, ◌++◌, ◌==◌,
  ◌||◌, ◌∷◌, nat_eq, bytes_eq, int_eq,
}
pub mod Members
pub mod Fates
pub mod Told
pub mod Quiet

-- A secondary, and whether it has a URL to check in at.
pub record Secondary : Type 0 where
  pub name : Bytes
  pub has_url : Bool

-- The start of the run, the start of the copies, the first copies, and their retry.
pub data Moment : Type 0 where
  at_start listing copying retrying : Moment

pub record CopyAnswers : Type 0 where
  pub is_closed : Moment → Bytes → Bool
  -- a probe, and a stop that is seen after one that failed
  pub is_reached : Moment → Bytes → Bool
  pub is_stopped : Moment → Bytes → Bool
  pub is_locked : Moment → Bytes → Bool
  pub is_started : Moment → Bytes → Bool
  pub is_copied : Moment → Bytes → Bool
  -- a signal after the first copies, and at the end
  pub signaled : Bool
  pub signaled_at_end : Bool
  pub primary_ok : Bool
  pub stopped_at_primary : Bool

pub data CopyAct : Type 0 where
  probed_secondary : Bytes → CopyAct
  -- the errors: a storage that cannot be reached, the primary lost, a retry that failed
  unreachable : Bytes → CopyAct
  probed_primary primary_lost : CopyAct
  failed_again : Bytes → CopyAct
  copy_started : Bytes → CopyAct
  copy_ended : Bytes → Bool → CopyAct
  copy_refused : Bytes → CopyAct

unfoldable pub mark_if : Bool → Bytes → (Bytes → Bool) → Bytes → Bool
mark_if b n marks k = b && n == k || marks k

-- `outsideWindow`
unfoldable pub outside_window : CopyAnswers → Moment → (Bytes → Bool) → Bytes → Bool
outside_window a m held n = held n || a.is_closed m n

unfoldable pub answers_probe : CopyAnswers → Moment → Bytes → Bool
answers_probe a m n = a.is_reached m n || a.is_stopped m n

-- The names to go on with, what is down and what is held by then.
pub record Names : Type 0 where
  pub acts : List CopyAct
  pub names : List Bytes
  pub down : Bytes → Bool
  pub held : Bytes → Bool

-- The probes at the start of `main`; a secondary that is held is not probed.
unfoldable pub probe_all : CopyAnswers → List Secondary → (Bytes → Bool) → (Bytes → Bool) → Names
unfolding mark_if outside_window answers_probe
probe_all a [] down held = record { acts = []; names = []; down = down; held = held }
probe_all a (t ∷ ts) down held =
    let closed = outside_window a at_start held t.name in
    let ok = answers_probe a at_start t.name in
    let rest =
      probe_all a ts (mark_if (not closed && not ok) t.name down) (mark_if closed t.name held) in
    if closed
    then rest
    else if ok
    then record rest { acts = probed_secondary t.name ∷ rest.acts }
    else record rest { acts = probed_secondary t.name ∷ unreachable t.name ∷ rest.acts }

-- The names at the start of `copies`.
unfoldable pub list_names : CopyAnswers → (Bytes → Bool) → List Secondary → (Bytes → Bool) → Names
unfolding mark_if outside_window
list_names a down [] held = record { acts = []; names = []; down = down; held = held }
list_names a down (t ∷ ts) held =
    let closed = outside_window a listing held t.name in
    let rest = list_names a down ts (mark_if (not (down t.name) && closed) t.name held) in
    if not (down t.name) && not closed then record rest { names = t.name ∷ rest.names } else rest

-- `reachable`
unfoldable pub reachable :
    CopyAnswers → Moment → List Bytes → (Bytes → Bool) → List Secondary → (Bytes → Bool) → Names
unfolding mark_if answers_probe
reachable a m wanted held [] down = record { acts = []; names = []; down = down; held = held }
reachable a m wanted held (t ∷ ts) down =
    let ok = answers_probe a m t.name in
    let rest =
      reachable a m wanted held ts (mark_if (contains wanted t.name && not ok) t.name down) in
    if not (contains wanted t.name)
    then rest
    else if ok
    then record rest { acts = probed_secondary t.name ∷ rest.acts; names = t.name ∷ rest.names }
    else record rest { acts = probed_secondary t.name ∷ unreachable t.name ∷ rest.acts }

-- The copies that started, those that could not, and what is held by then.
pub record Legs : Type 0 where
  pub acts : List CopyAct
  pub legs : List Bytes
  pub failed : List Bytes
  pub held : Bytes → Bool

-- The first loop of `copyLegs`.
unfoldable pub start_legs : CopyAnswers → Moment → List Bytes → (Bytes → Bool) → Legs
unfolding mark_if outside_window
start_legs a m [] held = record { acts = []; legs = []; failed = []; held = held }
start_legs a m (n ∷ ns) held =
    let closed = outside_window a m held n in
    let rest = start_legs a m ns (mark_if (a.is_locked m n && closed) n held) in
    if not (a.is_locked m n)
    then record rest { acts = copy_refused n ∷ rest.acts; failed = n ∷ rest.failed }
    else if closed
    then rest
    else if not (a.is_started m n)
    then record rest { acts = copy_refused n ∷ rest.acts; failed = n ∷ rest.failed }
    else record rest { acts = copy_started n ∷ rest.acts; legs = n ∷ rest.legs }

-- `copyLegs`: all copies have started when the first is waited for.
unfoldable pub copy_legs : CopyAnswers → Moment → List Bytes → (Bytes → Bool) → Legs
unfolding start_legs
copy_legs a m names held =
    let s = start_legs a m names held in
    record s {
      acts = s.acts ++ map (λ n. copy_ended n (a.is_copied m n)) s.legs;
      failed = s.failed ++ keep (λ n. not (a.is_copied m n)) s.legs;
    }

-- How the copies end: what failed, what is down and held, and whether the primary is lost.
pub record Ended : Type 0 where
  pub acts : List CopyAct
  pub failed : List Bytes
  pub down : Bytes → Bool
  pub held : Bytes → Bool
  pub lost : Bool

-- The retry of what can still be reached.
unfoldable pub retry_legs : CopyAnswers → List Bytes → List Bytes → Names → Ended
unfolding copy_legs
retry_legs a failed [] r = record {
  acts = r.acts;
  failed = failed;
  down = r.down;
  held = r.held;
  lost = false;
}
retry_legs a failed (n ∷ ns) r =
    let c = copy_legs a retrying (n ∷ ns) r.held in
    record {
      acts = r.acts ++ (c.acts ++ map failed_again c.failed);
      failed = c.failed;
      down = r.down;
      held = c.held;
      lost = false;
    }

-- `copies`, once the first copies have ended.
unfoldable pub after_copies :
    CopyAnswers → List Secondary → List Bytes → (Bytes → Bool) → (Bytes → Bool) → Ended
unfolding reachable retry_legs
after_copies a ts [] down held = record {
  acts = [];
  failed = [];
  down = down;
  held = held;
  lost = false;
}
after_copies a ts (n ∷ ns) down held =
    if a.signaled
    then record { acts = []; failed = n ∷ ns; down = down; held = held; lost = false }
    else if not a.primary_ok && not a.stopped_at_primary
    then record {
      acts = probed_primary ∷ primary_lost ∷ [];
      failed = n ∷ ns;
      down = down;
      held = held;
      lost = true;
    }
    else (let r = reachable a retrying (n ∷ ns) held ts down in
        let e = retry_legs a (n ∷ ns) r.names r in record e { acts = probed_primary ∷ e.acts })

unfoldable pub first_copies : CopyAnswers → List Secondary → List Bytes → Names → Ended
unfolding reachable copy_legs after_copies
first_copies a ts [] l = record {
  acts = [];
  failed = [];
  down = l.down;
  held = l.held;
  lost = false;
}
first_copies a ts (n ∷ ns) l =
    let r = reachable a copying (n ∷ ns) l.held ts l.down in
    let c = copy_legs a copying r.names r.held in
    let e = after_copies a ts c.failed r.down c.held in
    record e { acts = r.acts ++ (c.acts ++ e.acts) }

-- `targetCheckins`: the secondaries that are told how their copy went.
unfoldable pub ping_all : Ended → List Secondary → List (Bytes × Bool)
ping_all e [] = []
ping_all e (t ∷ ts) =
    let rest = ping_all e ts in
    if not t.has_url || e.held t.name
    then rest
    else (t.name, not (e.down t.name) && not (contains e.failed t.name)) ∷ rest

unfoldable pub target_checkins : CopyAnswers → List Secondary → Ended → List (Bytes × Bool)
unfolding ping_all
target_checkins a ts e = if a.signaled_at_end || e.lost then [] else ping_all e ts

-- `copies`, before its check-ins; without secondaries there is nothing to list or to copy.
unfoldable pub make_copies : CopyAnswers → List Secondary → (Bytes → Bool) → (Bytes → Bool) → Ended
unfolding list_names first_copies
make_copies a ts down held = let l = list_names a down ts held in first_copies a ts l.names l

-- `copies`: the check-ins are its last acts, however the copies end.
unfoldable pub copies :
    CopyAnswers → List Secondary → (Bytes → Bool) → (Bytes → Bool) → Ended × List (Bytes × Bool)
unfolding make_copies target_checkins
copies a ts down held = let e = make_copies a ts down held in (e, target_checkins a ts e)
