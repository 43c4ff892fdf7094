-- ===== src/Entities/Requests/Laws.antt =====
-- What fetching one parent promises.
use telecam.Prelude.{◌≡◌, List, [], Option, none, some}
use telecam.Text.{Text}
use telecam.Json.Defs.{Json}
use telecam.Session.World.{World, Env, Run, returned, thrown}
use telecam.Entities.Parents.{Parent, LinkedChild, ParentDetail, normalize_parent_detail}
use telecam.Entities.Requests.{find_parent, detail_of}

module _ {N : Type 0} where
  -- A run that returns the details of a parent.
  abbrev pub GivesDetailOf : Parent → Run N (Option ParentDetail) → Type 0
  GivesDetailOf p (returned none v) = ⊥
  GivesDetailOf p (returned (some d) v) = d.parent ≡ p
  GivesDetailOf p (thrown e v) = ⊥

  -- What the search for a parent decides of a run that starts in a world.
  abbrev pub FollowsSearch : Option Parent → World → Run N (Option ParentDetail) → Type 0
  FollowsSearch none v run = run ≡ returned none v
  FollowsSearch (some p) v run = GivesDetailOf p run

  -- What the request for the parents decides.
  abbrev pub FollowsParents : Text → Run N (List Parent) → Run N (Option ParentDetail) → Type 0
  FollowsParents id (returned parents v) run = FollowsSearch (find_parent id parents) v run
  FollowsParents id (thrown e v) run = run ≡ thrown e v

  abbrev with_links : Parent → Run N (List LinkedChild) → Run N (Option ParentDetail)
  with_links p run = elim run [
    | returned links v ↦ returned (some (normalize_parent_detail p links)) v
    | thrown e v ↦ thrown e v
  ]

  abbrev caught : Parent → Run N (Option ParentDetail) → Run N (Option ParentDetail)
  caught p run = elim run [
    | returned d v ↦ returned d v
    | thrown e v ↦ returned (some (normalize_parent_detail p [])) v
  ]

module _ {N : Type 0} (env : Env N) (to_text : Json N → Text) (encode : Text → Text) where
  abbrev then_detail : Text → Run N (List Parent) → Run N (Option ParentDetail)
  then_detail id run = elim run [
    | returned parents v ↦ detail_of env to_text encode id (find_parent id parents) v
    | thrown e v ↦ thrown e v
  ]
