-- ===== src/Users/Tests.antt =====
-- A server that answers with one user and one row that is none.
use telecam.Prelude.{ℕ, List, [], none, some}
use telecam.Text.{Text, text}
use telecam.Json.Defs.{Engine, object, string, array, cons, nil, field, end}
use telecam.Json.Examples.{small_engine}
use telecam.Session.World.{Env}
use telecam.Session.SignedIn.{Triple, Anything}
use telecam.Users.Requests.{get_users, get_users-Identified, Identified}

abbrev listing : Engine ℕ
listing = record small_engine {
  parse = λ s. some (
      array (
        cons (object (field (text "id") (string (text "u1")) end))
          (cons (string (text "u2")) nil)));
}

abbrev directory : Env ℕ
directory = record {
  js = listing;
  server = λ sent request. some (record { status = 200; text = text "users" });
  api_base_url = text "https://x";
  app_name = text "d";
  fresh_fingerprint = λ sent. text "f";
}

abbrev no_parameters : List (Text × Text) → Text
no_parameters ps = []

abbrev same_text : Text → Text
same_text s = s

get_users-Identified_example :
    Triple Anything
      (get_users directory no_parameters same_text none)
      (Identified directory no_parameters same_text)
get_users-Identified_example = get_users-Identified directory no_parameters same_text none
