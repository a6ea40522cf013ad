-- ===== src/Rest/Server/Uploads.antt =====
-- `addUploadedFile`, `create` and `upload` against a server.
use marc_fs.Base.{
  ℕ, suc, ◌+◌, ◌-◌, ◌≤◌, min, ◌≡◌, refl, sym, ap, subst, ◌∙◌, ◌⊎◌, inl, inr, true, false, none,
  some, [], ◌∷◌, arith, leb, leb→le, Bool-cases, length, is_nil, replicate, length-eq-zero, Result,
  bind_result, ◌>>=◌, Bytes, Text, codes, text_eq,
}
use marc_fs.Base.Decimal.{to_string}
use marc_fs.Base.Slices.{slice, length-slice, slice_whole}
use marc_fs.Cloud.{file, is_folder, set_entry, is_ascii, FitsUpload, off_max}
use marc_fs.Paths.{base_name, parent_of}
use marc_fs.Paths.Names.{parent_of-base_name}
use marc_fs.Rest.Hex.Digits.{unhex, are_bytes, to_padded_40_hex-unhex}
use marc_fs.Rest.Params.{Params, params, param_string, from_list, add_param}
use marc_fs.Rest.Shard.{Shard, ShardType, get_url}
use marc_fs.Rest.Params.Decoding.{named}
use marc_fs.Rest.Session.{perform_action, Session, RestClient, Request, request, action_request}
use marc_fs.Rest.Calls.{
  given, drop_answer, add_uploaded_file, create, put_bytes, upload_url, upload_small, upload_large,
  upload,
}
use marc_fs.Rest.Transfers.{read_data, sent}
use marc_fs.Rest.Transfers.Laws.{sent-slice}
use marc_fs.Rest.Server.{Platform, IsServer, api_two, rewriting}
use marc_fs.Rest.Server.Requests.{
  obtain_shard-IsShard, Accepts-Leaves, action_then, fields_parsed, Leaves,
}
use marc_fs.Rest.Endpoints.{add_file_endpoint, shard_endpoint}

abbrev added : Text → ℕ → Text → Params
added hash size p =
    (codes "hash", hash)
    ∷ (codes "size", to_string size)
    ∷ (codes "home", p)
    ∷ rewriting
    ∷ api_two
    ∷ []

added-named :
    (hash : Text) (size : ℕ) (p : Text)
    → named (params (added hash size p))
      ≡ api_two
        ∷ rewriting
        ∷ (codes "hash", hash)
        ∷ (codes "home", p)
        ∷ (codes "size", to_string size)
        ∷ []
unfolding from_list add_param text_eq
added-named hash size p = refl

is_ascii-are_bytes : (b : Bytes) → is_ascii b ≡ true → are_bytes b ≡ true
is_ascii-are_bytes [] h = refl
is_ascii-are_bytes (x ∷ b) h = ground (arith, is_ascii-are_bytes b)

module _ (X : Platform) (L : IsServer X) where
  abbrev Content : X.H.World → Text → Bytes → Type 0
  Content w hash b =
      (L.blob w hash ≡ some b)
      ⊎ ((length hash ≡ 40) × (length b ≤ 20) × (unhex (length b) hash ≡ b))

  add_uploaded_file-Leaves :
      (p hash : Text) (b : Bytes) (size : ℕ) (c : RestClient) (w : X.H.World)
      → L.IsOnline w
      → size ≡ length b
      → Content w hash b
      → is_folder (L.entry w p) ≡ false
      → Leaves X L
          (add_uploaded_file X.H (base_name p) (parent_of p) hash size (c, w))
          (set_entry p (file b) (L.entry w))
  unfolding add_uploaded_file
  add_uploaded_file-Leaves p hash b size c w on len here free =
      let ps = added hash size p in
      let req : Request = record (request add_file_endpoint) {
        post_fields = some (param_string X.H.escape (params ps));
      } in
      let whole = (parent_of-base_name p).0 in
      subst
        (λ home.
          Leaves X L
            ((perform_action X.H none (record (request add_file_endpoint) {
              post_fields = some (param_string X.H.escape (params (added hash size home)));
            })
                >>= drop_answer)
              (c, w))
            (set_entry p (file b) (L.entry w)))
        (sym whole)
        (Accepts-Leaves X L req c w (set_entry p (file b) (L.entry w)) (
          L.add_lem (action_request none req c) w (param_string X.H.escape (params ps)) hash p b on
            refl refl
            (fields_parsed X L ps
              ∙ (added-named hash size p
                  ∙ ap
                      (λ n.
                        api_two
                        ∷ rewriting
                        ∷ (codes "hash", hash)
                        ∷ (codes "home", p)
                        ∷ (codes "size", to_string n)
                        ∷ [])
                      len))
            here free))

  create-Leaves :
      (p : Text) (c : RestClient) (w : X.H.World)
      → L.IsOnline w
      → is_folder (L.entry w p) ≡ false
      → Leaves X L (create X.H p (c, w)) (set_entry p (file []) (L.entry w))
  unfolding create
  create-Leaves p c w on free =
      add_uploaded_file-Leaves p (replicate 40 48) [] 0 c w on refl (inr (refl, omega arith, refl))
        free

  upload_small-Leaves :
      (p : Text) (body : Bytes) (c : RestClient) (w : X.H.World)
      → L.IsOnline w
      → length body ≤ 20
      → is_ascii body ≡ true
      → is_folder (L.entry w p) ≡ false
      → Leaves X L
          (upload_small X.H X.J X.parse X.signed p body (c, w))
          (set_entry p (file body) (L.entry w))
  unfolding upload_small
  upload_small-Leaves p body c w on short ascii free =
      let (t, e, len, back) =
        to_padded_40_hex-unhex X.signed body short (is_ascii-are_bytes body ascii) (inr ascii) in
      let k =
        λ (hash : Text). add_uploaded_file X.H (base_name p) (parent_of p) hash (length body) in
      subst (λ r. Leaves X L r (set_entry p (file body) (L.entry w)))
        (λ i. bind_result k (sym e i, (c, w)))
        (add_uploaded_file-Leaves p t body (length body) c w on refl (inr (len, short, back)) free)

  upload_large-Leaves :
      (p : Text) (body : Bytes) (start count : ℕ) (c : RestClient) (w : X.H.World)
      → L.IsOnline w
      → start ≤ length body
      → length body ≤ off_max
      → start + count ≤ off_max
      → is_folder (L.entry w p) ≡ false
      → Leaves X L
          (upload_large X.H X.J X.parse X.stoi X.ask (suc (length body)) p body start count (c, w))
          (set_entry p (file (slice start count body)) (L.entry w))
  unfolding upload_large
  upload_large-Leaves p body start count c w on inside small far free =
      let part = slice start count body in
      let (shard, e, on1, same1, is) = obtain_shard-IsShard X L ShardType.upload c w on in
      let w1 = (X.H.perform (action_request none (request shard_endpoint) c) w).1 in
      let req : Request = record (request (upload_url X.H X.J X.parse shard c.login)) {
        upload = some part;
      } in
      let (hash, a, on2, same2, held) =
        L.upload_lem (action_request none req c) w1 (get_url shard) _ part on1 is refl refl refl in
      let w2 = (X.H.perform (action_request none req c) w1).1 in
      let add = λ (t : Text).
        add_uploaded_file X.H (base_name p) (parent_of p) t (min (length body - start) count) in
      let (d, made, all_sent) =
        sent-slice X.ask (suc (length body)) body start count L.asks inside small far
          (omega arith) in
      let url = upload_url X.H X.J X.parse shard c.login in
      let after : L.entry w2 ≡ L.entry w = same2 ∙ same1 in
      let run : upload_large X.H X.J X.parse X.stoi X.ask (suc (length body)) p body start count
            (c, w)
          ≡ add hash (c, w2) =
        (λ i.
          bind_result
            (λ (sh : Shard) (s : Session X.H).
              (given (read_data body start count) >>= λ d'.
              put_bytes X.H X.J X.parse (upload_url X.H X.J X.parse sh s.0.login)
                (sent X.ask (suc (length body)) d')
              >>= add)
                s)
            (e i))
        ∙ ((λ i.
            (given (made i) >>= λ d'.
            put_bytes X.H X.J X.parse url (sent X.ask (suc (length body)) d') >>= add)
              (c, w1)))
        ∙ ((λ i. (put_bytes X.H X.J X.parse url (all_sent i) >>= add) (c, w1))
            ∙ action_then X.H none req c w1 hash add (inr a)) in
      subst (λ r. Leaves X L r (set_entry p (file part) (L.entry w))) (sym run)
        (subst (λ f. Leaves X L (add hash (c, w2)) (set_entry p (file part) f)) after
          (add_uploaded_file-Leaves p hash part (min (length body - start) count) c w2 on2
            (omega (arith, length-slice start count body)) (inl held)
            (ap (λ f. is_folder (f p)) after ∙ free)))

  pub upload-Leaves :
      (p : Text) (body : Bytes) (start count : ℕ) (c : RestClient) (w : X.H.World)
      → L.IsOnline w
      → is_folder (L.entry w p) ≡ false
      → FitsUpload body start count
      → Leaves X L
          (upload X.H X.J X.parse X.signed X.stoi X.ask
            (suc (length body))
            p
            body
            start
            count
            (c, w))
          (set_entry p (file (slice start count body)) (L.entry w))
  unfolding upload
  upload-Leaves p body start count c w on free fits =
      let done = λ (r : Result (Unit {0}) × Session X.H) (b : Bytes).
        Leaves X L r (set_entry p (file b) (L.entry w)) in
      elim (Bool-cases (is_nil body)) [
        | inl nothing ↦
            let zero_length : length (slice start count body) ≡ 0 =
              ground (arith, length-slice start count body) in
            let nil = length-eq-zero (slice start count body) zero_length in
            rw nothing (subst (done (create X.H p (c, w))) (sym nil) (create-Leaves p c w on free))
        | inr some_bytes ↦ elim (Bool-cases (leb (length body) 20)) [
          | inl short ↦ elim fits.3 [
            | inl long ↦ absurd (ground arith)
            | inr (ascii, first, all) ↦
                let whole = ap (λ k. slice k count body) first ∙ slice_whole count body all in
                rw some_bytes (
                  rw short (
                    subst (done (upload_small X.H X.J X.parse X.signed p body (c, w))) (sym whole) (
                      upload_small-Leaves p body c w on (leb→le (length body) 20 short) ascii
                        free)))
          ]
          | inr long ↦
              rw some_bytes
                (rw long (upload_large-Leaves p body start count c w on fits.0 fits.1 fits.2 free))
        ]
      ]
