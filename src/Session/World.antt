-- ===== src/Session/World.antt =====
-- The state of the session and the programs that change it. A program runs to its end: what other
-- programs do while it waits for an answer is not part of a run.
-- admin-dashboard/lib/auth/session-store.ts (the module's variables), storage.ts (the local
-- storage), auth-context.tsx (the states of `AuthProvider`), lib/api.ts (requests and `ApiError`).
use telecam.Prelude.{ℕ, Bool, List, Option, none, some}
use telecam.Text.{Text}
use telecam.Json.Defs.{Json, Engine}
use telecam.Auth.Users.{AuthUser}

pub record Request : Type 0 where
  pub url : Text
  pub method : Text
  pub body : Option Text
  pub headers : List (Text × Text)

pub record Response : Type 0 where
  pub status : ℕ
  pub text : Text

-- What is outside of the program: the engine, the server's answer to a request after those sent
-- before it (`none`: the network fails), the configuration, and the fresh names of a device.
pub record Env (N : Type 0) : Type 0 where
  pub js : Engine N
  pub server : List Request → Request → Option Response
  pub api_base_url : Text
  pub app_name : Text
  pub fresh_fingerprint : List Request → Text

pub record World : Type 0 where
  -- session-store.ts
  pub access_token : Option Text
  -- whether the provider has registered its two handlers
  pub registered : Bool
  -- localStorage
  pub storage_available : Bool
  pub stored_refresh_token : Option Text
  pub stored_user : Option Text
  pub stored_fingerprint : Option Text
  -- the states of AuthProvider
  pub user : Option AuthUser
  pub access_token_state : Option Text
  pub refresh_token_state : Option Text
  pub is_loading : Bool
  -- what was sent, last first, and where the router was sent
  pub requests : List Request
  pub replaced : List Text

pub data Failure (N : Type 0) : Type 0 where
  api_error : (message : Text) (status : ℕ) (body : Json N) → Failure N
  other_error : (message : Text) → Failure N
  network_error : Failure N

pub data Run (N : Type 0) (A : Type 0) : Type 0 where
  returned : A → World → Run N A
  thrown : Failure N → World → Run N A

abbrev pub M : Type 0 → Type 0 → Type 0
M N A = World → Run N A

module _ {N A : Type 0} where
  abbrev pub pure : A → M N A
  pure a w = returned a w

  abbrev pub throw : Failure N → M N A
  throw e w = thrown e w

  abbrev pub or_throw : Option A → Failure N → M N A
  or_throw none e w = thrown e w
  or_throw (some a) e w = returned a w

  -- `try { m } catch (e) { h }`
  abbrev pub catch_with : M N A → (Failure N → M N A) → M N A
  catch_with m h w = elim (m w) [ returned a w' ↦ returned a w' | thrown e w' ↦ h e w' ]

abbrev pub change : {N : Type 0} → (World → World) → M N (Unit {0})
change f w = returned tt (f w)

infixl 5 ◌>>=◌ ◌>>◌
abbrev pub ◌>>=◌ : {N A B : Type 0} → M N A → (A → M N B) → M N B
◌>>=◌ m f w = elim (m w) [ returned a w' ↦ f a w' | thrown e w' ↦ thrown e w' ]

abbrev pub ◌>>◌ : {N B : Type 0} → M N (Unit {0}) → M N B → M N B
m >> k = m >>= λ _. k

-- The world that a run leaves.
abbrev pub final : {N A : Type 0} → Run N A → World
final (returned a w) = w
final (thrown e w) = w
