-- ===== src/Rest/Server/Requests.antt =====
-- One request after the other, against a server.
use marc_fs.Base.{
  ◌≡◌, refl, sym, subst, ◌∙◌, ◌⊎◌, inl, inr, Option, none, List, if◌then◌else◌, mail, failure, fail,
  Result, ok, M, pure, throw, bind_result, ◌>>=◌, Text, codes,
}
use marc_fs.Cloud.{Entry}
use marc_fs.Rest.Params.{Params, params, param_string}
use marc_fs.Rest.Params.Decoding.{parsed, named, param_string-parsed}
use marc_fs.Rest.Session.{
  request, Http, Session, RestClient, Request, action_request, action_result, perform_action,
  answered,
}
use marc_fs.Rest.Calls.{need, given, looking_into, body_of, read_body, obtain_shard, drop_answer}
use marc_fs.Rest.Shard.{Shard, ShardType, as_string, get_url, of_entity}
use marc_fs.Rest.Server.{Platform, IsServer}
use marc_fs.Rest.Endpoints.{shard_endpoint}

-- A call that succeeds with a value is followed by the rest.
pub bind_value :
    {S A B : Type 0} (m : M S A) (k : A → M S B) (s : S) (a : A)
    → (m s).0 ≡ ok a
    → (m >>= k) s ≡ k a (m s).1
bind_value m k s a e i = bind_result k (e i, (m s).1)

-- An answered request.
pub action_answered :
    (H : Http) (forced : Option (List Text)) (req : Request) (c : RestClient) (w : H.World)
    (t : Text)
    → ((H.perform (action_request forced req c) w).0 ≡ answered 200 t)
      ⊎ ((H.perform (action_request forced req c) w).0 ≡ answered 201 t)
    → perform_action H forced req (c, w)
      ≡ (ok t, (c, (H.perform (action_request forced req c) w).1))
unfolding perform_action action_result
action_answered H forced req c w t (inl e) i =
    (action_result (e i), (c, (H.perform (action_request forced req c) w).1))
action_answered H forced req c w t (inr e) i =
    (action_result (e i), (c, (H.perform (action_request forced req c) w).1))

-- An answered request, and what follows it.
pub action_then :
    {A : Type 0} (H : Http) (forced : Option (List Text)) (req : Request) (c : RestClient)
    (w : H.World) (t : Text) (k : Text → M (Session H) A)
    → ((H.perform (action_request forced req c) w).0 ≡ answered 200 t)
      ⊎ ((H.perform (action_request forced req c) w).0 ≡ answered 201 t)
    → (perform_action H forced req >>= k) (c, w)
      ≡ k t (c, (H.perform (action_request forced req c) w).1)
action_then H forced req c w t k e i = bind_result k (action_answered H forced req c w t e i)

module _ (X : Platform) (L : IsServer X) where
  -- What the server reads in the fields that a call posts.
  pub fields_parsed :
      (ps : Params) → parsed L.unescape (param_string X.H.escape (params ps)) ≡ named (params ps)
  fields_parsed ps = param_string-parsed X.H.escape L.unescape L.safe L.back (params ps)

  -- A call returned, and the files are now `f`.
  abbrev pub Leaves : Result (Unit {0}) × Session X.H → (Text → Entry) → Type 0
  Leaves r f = (r.0 ≡ ok tt) × L.IsOnline r.1.1 × (L.entry r.1.1 ≡ f)

  -- The server has done what a request says, and the files are now `f`.
  abbrev pub Accepts : Request → X.H.World → (Text → Entry) → Type 0
  Accepts r w f =
      (t : Text) × ((X.H.perform r w).0 ≡ answered 200 t)
      × L.IsOnline (X.H.perform r w).1
      × (L.entry (X.H.perform r w).1 ≡ f)

  pub Accepts-Leaves :
      (req : Request) (c : RestClient) (w : X.H.World) (f : Text → Entry)
      → Accepts (action_request none req c) w f
      → Leaves ((perform_action X.H none req >>= drop_answer) (c, w)) f
  Accepts-Leaves req c w f (t, a, on, same) =
      subst (λ r. Leaves r f) (sym (action_then X.H none req c w t drop_answer (inl a)))
        (refl, on, same)

  -- The dispatcher's answer names a shard of every type.
  pub obtain_shard-IsShard :
      (type : ShardType) (c : RestClient) (w : X.H.World)
      → L.IsOnline w
      → let w' = (X.H.perform (action_request none (request shard_endpoint) c) w).1 in
        (s : Shard) × (obtain_shard X.H X.J X.parse X.stoi type (c, w) ≡ (ok s, (c, w')))
        × L.IsOnline w'
        × (L.entry w' ≡ L.entry w)
        × L.IsShard type (get_url s)
  unfolding obtain_shard
  obtain_shard-IsShard type c w on =
      let req : Request = request shard_endpoint in
      let s' : Session X.H = (c, (X.H.perform (action_request none req c) w).1) in
      let (t, a, on', same, v, p, opens, there, inner, shards) =
        L.dispatcher_lem (action_request none req c) w on refl refl refl in
      let (s, e, is) = shards type in
      let k = λ (body : X.J.Value).
        looking_into X.H X.J X.parse body
          (given (of_entity X.J X.stoi (X.J.member body (as_string type)))) in
      (
        s,
        (λ i. bind_result k (action_then X.H none req c w t (read_body X.H X.J X.parse) (inl a) i))
            ∙ ((λ i. bind_result k (bind_result (body_of X.H X.J X.parse) (need (p i) s')))
                ∙ ((λ i. bind_result k (
                      if opens i
                      then (if there i then throw (mail 0) else pure (X.J.member v (codes "body")))
                          s'
                      else (fail failure, s')))
                    ∙ ((λ i.
                          if inner i
                          then given
                              (of_entity X.J X.stoi
                                (X.J.member (X.J.member v (codes "body")) (as_string type)))
                              s'
                          else (fail failure, s'))
                        ∙ λ i. (e i, s')))),
        on',
        same,
        is,
      )
