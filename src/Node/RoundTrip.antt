-- ===== src/Node/RoundTrip.antt =====
-- What is flushed under a path is what a later open of this path gives.
use marc_fs.Storage
use marc_fs.Storage.{Storage}
use marc_fs.Cloud
use marc_fs.Cloud.{Entry}
use marc_fs.Node.{Node}
