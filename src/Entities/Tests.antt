-- ===== src/Entities/Tests.antt =====
-- A server that answers every request with the same list of one row.
use telecam.Prelude.{ℕ, ◌≡◌, refl, false, [], none, some}
use telecam.Text.{Text, text}
use telecam.Json.Defs.{Json, Engine, object, string, array, cons, nil, field, end}
use telecam.Json.Examples.{small_engine}
use telecam.Session.World.{World, Env}
use telecam.Entities.Requests.{notes_to_age_group}

abbrev listing : Engine ℕ
listing = record small_engine {
  parse = λ s. some (array (cons (object (field (text "id") (string (text "p1")) end)) nil));
}

abbrev directory : Env ℕ
directory = record {
  js = listing;
  server = λ sent request. some (record { status = 200; text = text "parents" });
  api_base_url = text "https://x";
  app_name = text "d";
  fresh_fingerprint = λ sent. text "f";
}

abbrev no_text : Json ℕ → Text
no_text v = []

abbrev same_text : Text → Text
same_text s = s

abbrev browser : World
browser = record {
  access_token = some (text "t1");
  registered = false;
  storage_available = false;
  stored_refresh_token = none;
  stored_user = none;
  stored_fingerprint = none;
  user = none;
  access_token_state = some (text "t1");
  refresh_token_state = none;
  is_loading = false;
  requests = [];
  replaced = [];
}

notes_are_trimmed : notes_to_age_group (some (text " 3-4 ")) ≡ text "3-4"
unfolding notes_to_age_group
notes_are_trimmed = refl
