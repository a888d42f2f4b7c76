-- ===== src/Controllers/Voting/Voted.antt =====
-- From the form to the daemons.
use hxstakepool.Prelude.{string_eq, nat_eq}
use hxstakepool.GoMap.{GoMap}
