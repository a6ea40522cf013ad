-- ===== src/Rest/Shard.antt =====
-- marc_api_shard.h and marc_api_shard.cpp: where to send a kind of request to.
use marc_fs.Base.{
  ℕ, Option, none, some, ◌&&◌, if◌then◌else◌, failure, Result, ok, fail, Text, codes,
}
use marc_fs.CloudFile.{Json}

pub data ShardType : Type 0 where
  video : ShardType
  view_direct : ShardType
  weblink_view : ShardType
  weblink_video : ShardType
  weblink_get : ShardType
  weblink_thumbnails : ShardType
  auth : ShardType
  view : ShardType
  get : ShardType
  upload : ShardType
  thumbnails : ShardType

pub as_string : ShardType → Text
as_string video = codes "video"
as_string view_direct = codes "view_direct"
as_string weblink_view = codes "weblink_view"
as_string weblink_video = codes "weblink_video"
as_string weblink_get = codes "weblink_get"
as_string weblink_thumbnails = codes "weblink_thumbnails"
as_string auth = codes "auth"
as_string view = codes "view"
as_string get = codes "get"
as_string upload = codes "upload"
as_string thumbnails = codes "thumbnails"

pub record Shard : Type 0 where
  pub url : Text
  pub count : ℕ

abbrev pub get_url : Shard → Text
get_url s = s.url

pub get_count : Shard → ℕ
get_count s = s.count

-- `stoi` is `std::stoi` with the conversion to `size_t`.
module _ (J : Json) (stoi : Text → Option ℕ) where
  unfoldable pub of_member : J.Value → Result Shard
  of_member v = elim (J.as_string (J.member v (codes "url"))) [
    | none ↦ fail failure
    | some url ↦ elim (J.as_string (J.member v (codes "count"))) [
      | none ↦ fail failure
      | some text ↦ elim (stoi text) [
        | none ↦ fail failure
        | some n ↦ ok (record { url = url; count = n })
      ]
    ]
  ]

  -- The first item of a list, which is an object.
  unfoldable pub of_entity : J.Value → Result Shard
  unfolding of_member
  of_entity v =
      if J.has_items v && J.has_members (J.item v 0) then of_member (J.item v 0) else fail failure
