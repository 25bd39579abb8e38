-- ===== src/Cache/CacheStatus.antt =====
-- seaice/ds/cache_status.h and cache_status.cpp: the counters of a cache. An `int64_t` is the number
-- that its 64 bits make.
use seaice.Prelude.{ℕ, ◌+◌, ◌-◌, ◌%◌, ◌^◌}

pub record CacheStatus : Type 0 where
  pub sets : ℕ
  pub gets : ℕ
  pub dels : ℕ
  pub timeouts : ℕ
  pub prunes : ℕ
  pub hits : ℕ

unfoldable pub new_status : CacheStatus
new_status = record { sets = 0; gets = 0; dels = 0; timeouts = 0; prunes = 0; hits = 0 }

abbrev add_fetch : ℕ → ℕ → ℕ
add_fetch counter v = (counter + v) % 2 ^ 64

abbrev sub_fetch : ℕ → ℕ → ℕ
sub_fetch counter v = (counter + 2 ^ 64 - v % 2 ^ 64) % 2 ^ 64

unfoldable pub inc_get : ℕ → CacheStatus → CacheStatus
inc_get v s = record s { gets = add_fetch s.gets v }

unfoldable pub inc_set : ℕ → CacheStatus → CacheStatus
inc_set v s = record s { sets = add_fetch s.sets v }

unfoldable pub inc_del : ℕ → CacheStatus → CacheStatus
inc_del v s = record s { dels = add_fetch s.dels v }

unfoldable pub inc_timeout : ℕ → CacheStatus → CacheStatus
inc_timeout v s = record s { timeouts = add_fetch s.timeouts v }

unfoldable pub inc_prune : ℕ → CacheStatus → CacheStatus
inc_prune v s = record s { prunes = add_fetch s.prunes v }

unfoldable pub inc_hit : ℕ → CacheStatus → CacheStatus
inc_hit v s = record s { hits = add_fetch s.hits v }

unfoldable pub del_get : ℕ → CacheStatus → CacheStatus
del_get v s = record s { gets = sub_fetch s.gets v }

unfoldable pub del_set : ℕ → CacheStatus → CacheStatus
del_set v s = record s { sets = sub_fetch s.sets v }

unfoldable pub del_del : ℕ → CacheStatus → CacheStatus
del_del v s = record s { dels = sub_fetch s.dels v }

unfoldable pub del_timeout : ℕ → CacheStatus → CacheStatus
del_timeout v s = record s { timeouts = sub_fetch s.timeouts v }

unfoldable pub del_prune : ℕ → CacheStatus → CacheStatus
del_prune v s = record s { prunes = sub_fetch s.prunes v }

unfoldable pub del_hit : ℕ → CacheStatus → CacheStatus
del_hit v s = record s { hits = sub_fetch s.hits v }

unfoldable pub merge : CacheStatus → CacheStatus → CacheStatus
merge c s = record {
  sets = add_fetch s.sets c.sets;
  gets = add_fetch s.gets c.gets;
  dels = add_fetch s.dels c.dels;
  timeouts = add_fetch s.timeouts c.timeouts;
  prunes = add_fetch s.prunes c.prunes;
  hits = add_fetch s.hits c.hits;
}
