-- ===== src/Follow/Asking.antt =====
-- The requests of a follower's own clients: `Follow::Propose` and what ends their wait.
use zookeeper.Prelude.Eq.{nat_eq}
