-- ===== src/Tests/Nodes.antt =====
-- Files in parts: 25 and 30 bytes at a limit of 20, in a storage in memory.
use marc_fs.Base.{refl, Bool, true, false, [], ◌∷◌, replicate, pos, Bytes, Text}
use marc_fs.Storage.Instances.{memory_storage}
use marc_fs.Cloud.{absent}
use marc_fs.Node.{Node}
use marc_fs.Node.Exact.{IsExact, stored, stored-IsExact}
use marc_fs.Tests.Server.{Held}

abbrev pub a_path : Text
a_path = 47 ∷ 97 ∷ []

abbrev pub old_body : Bytes
old_body = replicate 25 7

abbrev pub new_body : Bytes
new_body = replicate 30 9

abbrev pub nothing : Held
nothing _ = absent

abbrev pub cloud : Held
cloud = stored 20 a_path old_body nothing

pub cloud-IsExact : IsExact 20 cloud a_path old_body
cloud-IsExact =
    stored-IsExact 20 a_path old_body nothing (record { whole = refl; parts = λ i. refl })

abbrev node_with : Bytes → Bool → Node memory_storage
node_with b changed = record {
  content = record { bytes = b };
  dirty = changed;
  old_size = 25;
  mtime = pos 0;
  opened = changed;
}

abbrev pub changed_node : Node memory_storage
changed_node = node_with new_body true

abbrev pub shut_node : Node memory_storage
shut_node = node_with [] false

abbrev next_node : Node memory_storage
next_node = record shut_node { old_size = 30 }
