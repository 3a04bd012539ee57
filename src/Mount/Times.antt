-- ===== src/Mount/Times.antt =====
-- crates/rfsd/src/fuse.rs: `timestamp_to_system_time` against the order of the timestamps.
use remotefs.Base.{ℕ, ◌<◌, ◌≡◌, Bool, arith, if◌then◌else◌, leb, nat_eq, ◌==◌}
use remotefs.Base.Int.{ℤ, pos, negsuc, leb_ℤ, int_eq}
use remotefs.Session.Types.{NodeTime}
use remotefs.Mount.Fuse.{timestamp_to_system_time}

-- The seconds are compared first, then the nanoseconds.
not_later : NodeTime → NodeTime → Bool
not_later a b = if a.seconds == b.seconds then leb a.nanos b.nanos else leb_ℤ a.seconds b.seconds

by_parts :
    (s t : ℤ) (m n : ℕ)
    → m < 1_000_000_000
    → n < 1_000_000_000
    → leb_ℤ
        (timestamp_to_system_time (record { seconds = s; nanos = m }))
        (timestamp_to_system_time (record { seconds = t; nanos = n }))
      ≡ not_later (record { seconds = s; nanos = m }) (record { seconds = t; nanos = n })
unfolding timestamp_to_system_time not_later
by_parts (pos s) (pos t) m n hm hn = ground arith
by_parts (pos s) (negsuc t) m n hm hn = ground arith
by_parts (negsuc s) (pos t) m n hm hn = ground arith
by_parts (negsuc s) (negsuc t) m n hm hn = ground arith

-- For nanoseconds below one second, the `SystemTime` of a timestamp is not later than that of
-- another exactly if the timestamp is not: by seconds first, before and after the epoch.
timestamp_to_system_time-not_later :
    (a b : NodeTime)
    → a.nanos < 1_000_000_000
    → b.nanos < 1_000_000_000
    → leb_ℤ (timestamp_to_system_time a) (timestamp_to_system_time b) ≡ not_later a b
timestamp_to_system_time-not_later a b ha hb = by_parts a.seconds b.seconds a.nanos b.nanos ha hb
