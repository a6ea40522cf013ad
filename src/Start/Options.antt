-- ===== src/Start/Options.antt =====
-- Which options are in force: the command line goes before the configuration file.
use marc_fs.Base.{
  ◌≡◌, refl, ap, ◌∙◌, Bool-cases, ◌⊎◌, inl, inr, true, false, Option, none, some, arith,
  if◌then◌else◌, ℤ, ok, Text, codes,
}
use marc_fs.CloudFile.{Json}
use marc_fs.Start.{
  MarcfsConfig, text_option, rate_option, is_unset, fill_config, and_then, with_value, with_content,
  config_path, load_config_file,
}

abbrev pub first_of : {A : Type 0} → Option A → Option A → Option A
first_of (some a) other = some a
first_of none other = other

-- A rate of 0 counts as not given.
abbrev pub first_rate : ℤ → Option ℤ → ℤ
first_rate rate none = rate
first_rate rate (some other) = if is_unset rate then other else rate

rate_cases : (rate : ℤ) → (is_unset rate ≡ true) ⊎ (is_unset rate ≡ false)
rate_cases rate = Bool-cases (is_unset rate)

module _ (J : Json) (as_c_string : J.Value → Option Text) (config : J.Value) where
  abbrev pub text_at : Text → Option Text
  text_at name =
      if J.is_null (J.member config name) then none else as_c_string (J.member config name)

  abbrev pub rate_at : Text → Option ℤ
  rate_at name =
      if J.is_null (J.member config name) then none else J.as_int64 (J.member config name)

  -- The file has no value of this name, or one of the right type.
  abbrev pub HasText : Text → Type 0
  HasText name =
      (J.is_null (J.member config name) ≡ true)
      ⊎ ((t : Text) × (as_c_string (J.member config name) ≡ some t))

  abbrev pub HasRate : Text → Type 0
  HasRate name =
      (J.is_null (J.member config name) ≡ true)
      ⊎ ((r : ℤ) × (J.as_int64 (J.member config name) ≡ some r))

  text_option-ok :
      (name : Text) (set : Option Text)
      → J.has_members config ≡ true
      → HasText name
      → text_option J as_c_string config name set ≡ ok (first_of set (text_at name))
  unfolding text_option
  text_option-ok name (some t) o h = refl
  text_option-ok name none o (inl e) = ground arith
  text_option-ok name none o (inr (t, e)) = ground arith

  rate_option-ok :
      (name : Text) (rate : ℤ)
      → J.has_members config ≡ true
      → HasRate name
      → rate_option J config name rate ≡ ok (first_rate rate (rate_at name))
  unfolding rate_option
  rate_option-ok name rate o (inl e) = ground (arith, rate_cases rate)
  rate_option-ok name rate o (inr (r, e)) = ground (arith, rate_cases rate)

  -- Where the configuration file opens, is a JSON object, and its values have the right types: each option is that
  -- of the command line where it is given there, and that of the file otherwise.
  pub load_config_file-first :
      (load_file : Text → Option Text) (parse : Text → Option J.Value) (home content : Text)
      (c : MarcfsConfig)
      → load_file (config_path J home c) ≡ some content
      → parse content ≡ some config
      → J.has_members config ≡ true
      → HasText (codes "username")
      → HasText (codes "password")
      → HasText (codes "cachedir")
      → HasText (codes "proxyurl")
      → HasRate (codes "max-download-rate")
      → HasRate (codes "max-upload-rate")
      → load_config_file J as_c_string load_file parse home c
        ≡ ok (record c {
          username = first_of c.username (text_at (codes "username"));
          password = first_of c.password (text_at (codes "password"));
          cachedir = first_of c.cachedir (text_at (codes "cachedir"));
          proxyurl = first_of c.proxyurl (text_at (codes "proxyurl"));
          max_download_rate = first_rate c.max_download_rate (rate_at (codes "max-download-rate"));
          max_upload_rate = first_rate c.max_upload_rate (rate_at (codes "max-upload-rate"));
        })
  unfolding load_config_file fill_config
  load_config_file-first load_file parse home content c l p o user word dir proxy down up =
      ap (with_content J as_c_string parse c) l
      ∙ (ap (with_value J as_c_string c) p ∙ λ i.
          and_then J (text_option-ok (codes "username") c.username o user i) (λ u.
            and_then J (text_option-ok (codes "password") c.password o word i) (λ w.
              and_then J (text_option-ok (codes "cachedir") c.cachedir o dir i) (λ d.
                and_then J (text_option-ok (codes "proxyurl") c.proxyurl o proxy i) (λ x.
                  and_then J
                    (rate_option-ok (codes "max-download-rate") c.max_download_rate o down i)
                    (λ r.
                      and_then J (rate_option-ok (codes "max-upload-rate") c.max_upload_rate o up i)
                        (λ s. ok (record c {
                          username = u;
                          password = w;
                          cachedir = d;
                          proxyurl = x;
                          max_download_rate = r;
                          max_upload_rate = s;
                        }))))))))
