-- ===== src/Resume.antt =====
-- internal/resume/resume.go: the record of a run in progress, kept on disk so that a run which a
-- crash ended is finished on the next start.
--
-- The record's JSON is exact: what is written reads back (directory names are UTF-8). A write that
-- fails leaves the file as it was, which atomicfile promises; whether it works is an argument.
use archiver.Shared.{
  Bool, Bytes, List, Option, codes, erase, false, if◌then◌else◌, insert, lookup, none, not, pos,
  some, ℤ, ◌==◌, nat_eq, bytes_eq, int_eq,
}

-- A service's stage.
abbrev pub pending : Bytes
pending = codes "pending"

abbrev pub hooked : Bytes
hooked = codes "hooked"

abbrev pub done : Bytes
done = codes "done"

pub record Record : Type 0 where
  pub drill : Bytes
  pub started : ℤ
  pub services : List (Bytes × Bytes)

-- `Record.Unfinished`
unfoldable pub unfinished : Record → Bytes → Bool
unfinished r dir = elim (lookup dir r.services) [ none ↦ false | some s ↦ not (s == done) ]

-- A run in progress, and what the file at its path reads as (`Read`).
pub record Run : Type 0 where
  pub rec : Record
  pub disk : Option Record

-- `write`
unfoldable pub write : Bool → Run → Run
write writes r = if writes then record r { disk = some r.rec } else r

-- `Begin`, at an instant, over what the file reads as before.
unfoldable pub begin : Bool → ℤ → Record → Option Record → Run
unfolding write
begin writes now rec disk = write writes (record {
  rec = if rec.started == pos 0 then record rec { started = now } else rec;
  disk = disk;
})

-- `Run.Replace`
unfoldable pub replace : Bool → Record → Run → Run
unfolding write
replace writes rec r = write writes (record r { rec = record rec { started = r.rec.started } })

-- `Run.Set`
unfoldable pub set : Bool → Bytes → Bytes → Run → Run
unfolding write
set writes dir stage r = write writes (record r {
  rec = record {
    drill = r.rec.drill;
    started = r.rec.started;
    services = insert dir stage r.rec.services;
  };
})

-- `Run.Forget`
unfoldable pub forget : Bool → Bytes → Run → Run
unfolding write
forget writes key r = write writes (record r {
  rec = record {
    drill = r.rec.drill;
    started = r.rec.started;
    services = erase key r.rec.services;
  };
})

-- `Run.End`, with whether the file is removed or at least emptied.
unfoldable pub end : Bool → Run → Run
end removes r = if removes then record r { disk = none } else r
