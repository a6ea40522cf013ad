-- ===== src/Rest/Server/Downloads.antt =====
-- `download` against a server.
use marc_fs.Base.{◌≡◌, refl, sym, ap, subst, ◌∙◌, none, ◌++◌, Result, ok, Bytes, Text}
use marc_fs.Cloud.{Entry, file}
use marc_fs.Rest.Shard.{ShardType, get_url}
use marc_fs.Rest.Session.{
  Session, RestClient, Request, request, action_request, get_request, get_result, perform_get,
  answered,
}
use marc_fs.Rest.Calls.{got, download}
use marc_fs.Rest.Server.{Platform, IsServer}
use marc_fs.Rest.Server.Requests.{obtain_shard-IsShard}
use marc_fs.Rest.Endpoints.{shard_endpoint}

module _ (X : Platform) (L : IsServer X) where
  -- The whole file was appended to the target, and nothing changed.
  abbrev pub Fetches : Bytes × (Result (Unit {0}) × Session X.H) → Bytes → (Text → Entry) → Type 0
  Fetches r b f = (r.0 ≡ b) × (r.1.0 ≡ ok tt) × L.IsOnline r.1.1.1 × (L.entry r.1.1.1 ≡ f)

  perform_get-answered :
      (req : Request) (c : RestClient) (w : X.H.World) (b : Bytes)
      → (X.H.perform (get_request req c) w).0 ≡ answered 200 b
      → perform_get X.H req (c, w) ≡ (b, (ok tt, (c, (X.H.perform (get_request req c) w).1)))
  unfolding perform_get get_result
  perform_get-answered req c w b e i =
      let w' = (X.H.perform (get_request req c) w).1 in
      let (bytes, r) = get_result (e i) in (bytes, (r, (c, w')))

  pub download-Fetches :
      (p : Text) (b : Bytes) (c : RestClient) (w : X.H.World)
      → L.IsOnline w
      → L.entry w p ≡ file b
      → Fetches (download X.H X.J X.parse X.stoi p (c, w)) b (L.entry w)
  unfolding download
  download-Fetches p b c w on e =
      let (shard, o, on1, same1, is) = obtain_shard-IsShard X L ShardType.get c w on in
      let w1 = (X.H.perform (action_request none (request shard_endpoint) c) w).1 in
      let req : Request = request (get_url shard ++ X.H.escape p) in
      let (a, on2, same2) =
        L.get_lem (get_request req c) w1 (get_url shard) p b on1 is refl refl refl
          (ap (λ f. f p) same1 ∙ e) in
      let run : download X.H X.J X.parse X.stoi p (c, w)
          ≡ (b, (ok tt, (c, (X.H.perform (get_request req c) w1).1))) =
        (λ i. got X.H X.J X.parse p (o i)) ∙ perform_get-answered req c w1 b a in
      subst (λ r. Fetches r b (L.entry w)) (sym run) (refl, refl, on2, same2 ∙ same1)
