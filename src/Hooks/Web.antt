-- ===== src/Hooks/Web.antt =====
-- The callbacks over the client over HTTP: from an open file down to the requests that the server gets.
use marc_fs.Base.{ℕ}
use marc_fs.Storage
use marc_fs.Storage.{Storage}
use marc_fs.Node
use marc_fs.Node.{Node}
use marc_fs.Stat.{Context}
use marc_fs.Compounds.{Compounds}
use marc_fs.Rest.Server.{Platform, rest_client}
use marc_fs.Hooks.{Setup}

-- The program as it is linked: the client is the one over HTTP.
abbrev pub web_setup :
    Platform → (S : Storage) → S.State → ℕ → Context → (Compounds → Compounds) → Setup
web_setup X S fresh limit context order = record {
  S = S;
  C = rest_client X;
  limit = limit;
  context = context;
  fresh_storage = fresh;
  order = order;
}
