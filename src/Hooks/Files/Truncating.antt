-- ===== src/Hooks/Files/Truncating.antt =====
-- `truncateCallback` on a file that is not open, over a lawful storage and a lawful client.
use marc_fs.Base.{ℕ, M, Text}
use marc_fs.Storage
use marc_fs.Cloud
use marc_fs.Node
use marc_fs.Node.{Node}
use marc_fs.Hooks.{Setup}

module _ (U : Setup) (path : Text) (size : ℕ) where
  abbrev cut : M (Node U.S × U.C.World) (Unit {0})
  cut (n, w) = let (r, n') = Node.truncate_node U.S size n in (r, (n', w))
