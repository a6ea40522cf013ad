-- ===== src/Rest/Params.antt =====
-- `MarcRestClient::Params` and `paramString`.
pub mod Decoding
use marc_fs.Base.{
  Bool, true, false, ◌&&◌, ◌||◌, List, ◌∷◌, ◌++◌, ltb, ◌==◌, if◌then◌else◌, is_nil, Text, text_eq,
  [],
}

-- `operator<` of `std::string`.
unfoldable text_lt : Text → Text → Bool
text_lt [] [] = false
text_lt [] (y ∷ ys) = true
text_lt (x ∷ xs) [] = false
text_lt (x ∷ xs) (y ∷ ys) = ltb x y || (x == y && text_lt xs ys)

abbrev pub Params : Type 0
Params = List (Text × Text)

-- A `std::map` made of a list: sorted by name, the first of two equal names kept.
unfoldable pub add_param : Text → Text → Params → Params
unfolding text_lt
add_param k v [] = (k, v) ∷ []
add_param k v ((j, w) ∷ rest) =
    if text_lt k j
    then (k, v) ∷ ((j, w) ∷ rest)
    else if text_eq k j
    then (j, w) ∷ rest
    else (j, w) ∷ add_param k v rest

unfoldable pub from_list : Params → Params → Params
from_list sofar [] = sofar
from_list sofar ((k, v) ∷ rest) = from_list (add_param k v sofar) rest

abbrev pub params : Params → Params
params = from_list []

-- `std::ostream_iterator` puts the delimiter behind each argument.
unfoldable pub joined : List Text → Text
joined [] = []
joined (a ∷ rest) = a ++ (38 ∷ joined rest)

-- `escape` is `curl_easy_escape`.
module _ (escape : Text → Text) where
  argument : Text → Text → Text
  argument name value = if is_nil value then name else name ++ (61 ∷ value)

  unfoldable arguments : Params → List Text
  unfolding argument
  arguments [] = []
  arguments ((name, value) ∷ rest) =
      let more = arguments rest in
      if is_nil name then more else argument (escape name) (escape value) ∷ more

  unfoldable pub param_string : Params → Text
  unfolding arguments joined
  param_string ps = if is_nil ps then [] else joined (arguments ps)
