-- ===== src/Rest/Server/Renames.antt =====
-- `remove` and `rename` against a server.
use marc_fs.Base.{
  ◌≡◌, refl, sym, ap, subst, ◌∙◌, fun_ext, inl, inr, true, false, none, some, [], ◌∷◌, ◌++◌, arith,
  Bool-cases, Result, ok, fail, bind_result, Bytes, Text, codes, text_eq, text_eq_iff, text_eq_refl,
}
use marc_fs.Cloud.{Entry, absent, file, is_folder, set_entry, detour}
use marc_fs.Paths.{base_name, parent_of}
use marc_fs.Paths.Names.{parent_of-base_name, base_name-detour}
use marc_fs.Rest.Params.{Params, params, param_string, from_list, add_param}
use marc_fs.Rest.Params.Decoding.{named}
use marc_fs.Rest.Session.{Session, RestClient, Request, request, action_request, perform_action}
use marc_fs.Rest.Calls.{move, remove, rename, drop_answer}
use marc_fs.Rest.Server.{Platform, IsServer, api_two, rewriting}
use marc_fs.Rest.Server.Requests.{action_then, fields_parsed, Leaves, Accepts-Leaves}
use marc_fs.Rest.Endpoints.{move_file_endpoint, remove_file_endpoint, rename_file_endpoint}

abbrev removing : Text → Params
removing p = api_two ∷ (codes "home", p) ∷ []

abbrev renaming : Text → Text → Params
renaming p name = api_two ∷ rewriting ∷ (codes "home", p) ∷ (codes "name", name) ∷ []

abbrev moving : Text → Text → Params
moving p folder = api_two ∷ rewriting ∷ (codes "folder", folder) ∷ (codes "home", p) ∷ []

removing-named : (p : Text) → named (params (removing p)) ≡ removing p
unfolding from_list add_param text_eq
removing-named p = refl

renaming-named : (p name : Text) → named (params (renaming p name)) ≡ renaming p name
unfolding from_list add_param text_eq
renaming-named p name = refl

moving-named : (p folder : Text) → named (params (moving p folder)) ≡ moving p folder
unfolding from_list add_param text_eq
moving-named p folder = refl

-- The files after a rename: the file has got its new name in its old folder on its way.
abbrev pub renamed : Text → Text → Bytes → (Text → Entry) → Text → Entry
renamed p q b f = set_entry q (file b) (set_entry (detour p q) absent (set_entry p absent f))

dropped_state :
    {S : Type 0} (r : Result Text) (s : S) → (bind_result (drop_answer {S = S}) (r, s)).1 ≡ s
dropped_state (ok t) s = refl
dropped_state (fail e) s = refl

module _ (X : Platform) (L : IsServer X) where
  abbrev posting : Text → Params → Request
  posting url ps = record (request url) { post_fields = some (param_string X.H.escape (params ps)) }

  pub remove-Leaves :
      (p : Text) (b : Bytes) (c : RestClient) (w : X.H.World)
      → L.IsOnline w
      → L.entry w p ≡ file b
      → Leaves X L (remove X.H p (c, w)) (set_entry p absent (L.entry w))
  unfolding remove
  remove-Leaves p b c w on e =
      let req = posting remove_file_endpoint (removing p) in
      Accepts-Leaves X L req c w (set_entry p absent (L.entry w)) (
        L.remove_lem (action_request none req c) w _ p b on refl refl
          (fields_parsed X L (removing p) ∙ removing-named p) e)

  -- Whatever the answer is.
  pub remove_absent-same :
      (p : Text) (c : RestClient) (w : X.H.World)
      → L.IsOnline w
      → L.entry w p ≡ absent
      → L.IsOnline (remove X.H p (c, w)).1.1 × (L.entry (remove X.H p (c, w)).1.1 ≡ L.entry w)
  unfolding remove perform_action
  remove_absent-same p c w on e =
      let req = posting remove_file_endpoint (removing p) in
      let after =
        L.remove-absent_lem (action_request none req c) w _ p on refl refl
          (fields_parsed X L (removing p) ∙ removing-named p) e in
      let s' : Session X.H = (c, (X.H.perform (action_request none req c) w).1) in
      subst (λ (t : Session X.H). L.IsOnline t.1 × (L.entry t.1 ≡ L.entry w))
        (sym (dropped_state (perform_action X.H none req (c, w)).0 s')) after

  move-Leaves :
      (p folder : Text) (b : Bytes) (c : RestClient) (w : X.H.World)
      → L.IsOnline w
      → L.entry w p ≡ file b
      → is_folder (L.entry w (folder ++ base_name p)) ≡ false
      → Leaves X L
          (move X.H p folder (c, w))
          (set_entry (folder ++ base_name p) (file b) (set_entry p absent (L.entry w)))
  unfolding move
  move-Leaves p folder b c w on e free =
      let req = posting move_file_endpoint (moving p folder) in
      Accepts-Leaves X L req c w
        (set_entry (folder ++ base_name p) (file b) (set_entry p absent (L.entry w)))
        (L.move_lem (action_request none req c) w _ p folder b on refl refl
          (fields_parsed X L (moving p folder) ∙ moving-named p folder) e free)

  rename_apart-Leaves :
      (p q : Text) (b : Bytes) (c : RestClient) (w : X.H.World)
      → text_eq (parent_of p) (parent_of q) ≡ false
      → L.IsOnline w
      → L.entry w p ≡ file b
      → is_folder (L.entry w (detour p q)) ≡ false
      → is_folder (L.entry w q) ≡ false
      → Leaves X L (rename X.H p q (c, w)) (renamed p q b (L.entry w))
  unfolding rename
  rename_apart-Leaves p q b c w apart on e free_way free =
      let d = detour p q in
      let req = posting rename_file_endpoint (renaming p (base_name q)) in
      let (t, a, on1, same1) =
        L.rename_lem (action_request none req c) w _ p (base_name q) b on refl refl
          (fields_parsed X L (renaming p (base_name q)) ∙ renaming-named p (base_name q)) e
          free_way in
      let w1 = (X.H.perform (action_request none req c) w).1 in
      let there = (parent_of-base_name q).0 in
      let target = ap (λ n. parent_of q ++ n) (base_name-detour p q) ∙ there in
      let here : L.entry w1 d ≡ file b = ap (λ f. f d) same1 ∙ ground (arith, text_eq_refl d) in
      let free1 : is_folder (L.entry w1 q) ≡ false =
        ap (λ f. is_folder (f q)) same1 ∙ ground arith in
      let m =
        move-Leaves d (parent_of q) b c w1 on1 here
          (ap (λ x. is_folder (L.entry w1 x)) target ∙ free1) in
      rw apart (
        subst (λ r. Leaves X L r (renamed p q b (L.entry w)))
          (sym (action_then X.H none req c w t (λ _. move X.H d (parent_of q)) (inl a)))
          (
            m.0,
            m.1,
            m.2
                ∙ (ap (λ x. set_entry x (file b) (set_entry d absent (L.entry w1))) target
                    ∙ (ap (λ f. set_entry q (file b) (set_entry d absent f)) same1
                        ∙ fun_ext (λ x. ground arith))),
          ))

  rename_here-Leaves :
      (p q : Text) (b : Bytes) (c : RestClient) (w : X.H.World)
      → text_eq (parent_of p) (parent_of q) ≡ true
      → L.IsOnline w
      → L.entry w p ≡ file b
      → is_folder (L.entry w (detour p q)) ≡ false
      → Leaves X L (rename X.H p q (c, w)) (renamed p q b (L.entry w))
  unfolding rename
  rename_here-Leaves p q b c w same on e free_way =
      let d = detour p q in
      let req = posting rename_file_endpoint (renaming p (base_name q)) in
      let direct : d ≡ q =
        ap (λ f. f ++ base_name q) ((text_eq_iff (parent_of p) (parent_of q)).0 same)
        ∙ (parent_of-base_name q).0 in
      let r = Accepts-Leaves X L req c w (set_entry d (file b) (set_entry p absent (L.entry w))) (
        L.rename_lem (action_request none req c) w _ p (base_name q) b on refl refl
          (fields_parsed X L (renaming p (base_name q)) ∙ renaming-named p (base_name q)) e
          free_way) in
      rw same (
        r.0,
        r.1,
        r.2
            ∙ (ap (λ x. set_entry x (file b) (set_entry p absent (L.entry w))) direct
                ∙ (fun_ext (λ x. ground arith)
                    ∙ ap
                        (λ x.
                          set_entry q (file b)
                            (set_entry x absent (set_entry p absent (L.entry w))))
                        (sym direct))),
      )

  pub rename-Leaves :
      (p q : Text) (b : Bytes) (c : RestClient) (w : X.H.World)
      → L.IsOnline w
      → L.entry w p ≡ file b
      → is_folder (L.entry w (detour p q)) ≡ false
      → is_folder (L.entry w q) ≡ false
      → Leaves X L (rename X.H p q (c, w)) (renamed p q b (L.entry w))
  rename-Leaves p q b c w on e free_way free =
      elim (Bool-cases (text_eq (parent_of p) (parent_of q))) [
        | inl same ↦ rename_here-Leaves p q b c w same on e free_way
        | inr apart ↦ rename_apart-Leaves p q b c w apart on e free_way free
      ]
