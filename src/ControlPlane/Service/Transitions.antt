-- ===== src/ControlPlane/Service/Transitions.antt =====
-- Every request takes the transition that it asks for.
use phulax.Value.{Value}
use phulax.ControlPlane.Db.{Db}
