-- ===== src/Rest/Login.antt =====
-- `MarcRestClient::login`: three pages, of which the first and the last give a token.
pub mod Account
use marc_fs.Base.{
  ℕ, Bool, ◌||◌, Option, none, some, List, [], ◌∷◌, ◌++◌, leb, ◌==◌, if◌then◌else◌, length, is_nil,
  mail, ok, M, pure, throw, ◌>>=◌, ◌>>◌, Text, codes,
}
use marc_fs.Paths.{split_last}
use marc_fs.Compounds.{strip}
use marc_fs.Rest.Session.{Http, Session, request, perform_action}
use marc_fs.Rest.Endpoints.{auth_endpoint, cloud_domain, main_domain}

-- What stands behind the first occurrence, where there is one.
unfoldable pub behind : Text → Text → Option Text
behind word [] = strip word []
behind word (c ∷ cs) = elim (strip word (c ∷ cs)) [ none ↦ behind word cs | some rest ↦ some rest ]

-- What stands before the first such character, or all of it.
unfoldable pub up_to : ℕ → Text → Text
up_to d [] = []
up_to d (c ∷ cs) = if c == d then [] else c ∷ up_to d cs

-- The first cookie in which the word `act` stands.
unfoldable pub act_cookie : List Text → Option Text
act_cookie [] = none
act_cookie (c ∷ cs) = elim (behind (codes "act") c) [ none ↦ act_cookie cs | some _ ↦ some c ]

abbrev is_tab : ℕ → Bool
is_tab c = c == 9

-- A cookie's last column.
unfoldable pub last_column : Text → Text
last_column cookie = elim (split_last is_tab cookie) [ none ↦ cookie | some (_, v) ↦ v ]

unfoldable pub csrf_of : Text → Option Text
csrf_of html = elim (behind (codes "\"csrf\":\"") html) [
  | none ↦ none
  | some rest ↦ some (up_to 34 rest)
]

module _ (H : Http) where
  -- No more cookies than before, or other ones.
  abbrev pub when_more : ℕ → M (Session H) (Unit {0}) → M (Session H) (Unit {0})
  when_more before k s = if leb (length (H.cookies s.1)) before then throw (mail 0) s else k s

  pub take_act : Option Text → M (Session H) (Unit {0})
  take_act none s = throw (mail 0) s
  take_act (some cookie) (c, w) = (ok tt, (record c { act_token = last_column cookie }, w))

  unfoldable pub open_main_page : M (Session H) (Unit {0})
  unfolding take_act
  open_main_page s =
      (perform_action H none (request main_domain) >>= λ _.
      when_more (length (H.cookies s.1)) λ t. take_act (act_cookie (H.cookies t.1)) t)
        s

  pub take_csrf : Option Text → M (Session H) (Unit {0})
  take_csrf none s = throw (mail 0) s
  take_csrf (some token) (c, w) = (ok tt, (record c { csrf_token = token }, w))

  unfoldable pub open_cloud_page : M (Session H) (Unit {0})
  unfolding take_csrf
  open_cloud_page s =
      (perform_action H none (request cloud_domain) >>= λ html.
      when_more (length (H.cookies s.1)) (take_csrf (csrf_of html)))
        s

  unfoldable pub authenticate : M (Session H) (Unit {0})
  authenticate s =
      let form =
        (codes "login", s.0.login)
        ∷ (codes "password", s.0.password)
        ∷ (codes "project", codes "e.mail.ru")
        ∷ (codes "saveauth", codes "1")
        ∷ (codes "token", s.0.act_token)
        ∷ [] in
      let headers =
        codes "Accept: */*"
        ∷ (codes "Origin: " ++ main_domain)
        ∷ (codes "Referer: " ++ main_domain)
        ∷ [] in
      (perform_action H (some headers) (record (request auth_endpoint) { form = form }) >>= λ _.
      when_more (length (H.cookies s.1)) (pure tt))
        s

  unfoldable pub log_in : Text → Text → M (Session H) (Unit {0})
  log_in login password (c, w) =
      if is_nil login || is_nil password
      then throw (mail 0) (c, w)
      else (open_main_page >> (authenticate >> open_cloud_page))
          (record c { login = login; password = password }, w)
