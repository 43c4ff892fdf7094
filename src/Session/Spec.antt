-- ===== src/Session/Spec.antt =====
-- What the session promises: who is signed in, and whether a sign-in can be taken up again from the
-- storage. The events are those of admin-dashboard/lib/auth/auth-context.tsx and of the requests of
-- the pages.
use telecam.Prelude.{
  ◌≡◌, ◌⊎◌, inl, inr, Bool, true, false, List, [], ◌∷◌, Option, none, some, ap, sym, ◌∙◌, refl, any,
  arith,
}
use mathlib.Core.Path.{subst}
use telecam.Auth.Users.{AuthUser}
use telecam.Session.World.{World}
use telecam.Session.Storage.{truthy, get_stored_refresh_token}
use telecam.Session.Access.{IsAdmitted}

pub record SessionView : Type 0 where
  pub user : Option AuthUser
  pub resumable : Bool

abbrev pub is_there : {A : Type 0} → Option A → Bool
is_there none = false
is_there (some a) = true

-- What is seen of a world.
unfoldable pub view : World → SessionView
view w = record { user = w.user; resumable = is_there (truthy (get_stored_refresh_token w)) }

abbrev pub signed_out : SessionView
signed_out = record { user = none; resumable = false }

pub data Event : Type 0 where
  register sign_in sign_out load refresh refresh_by_handler expire new_password page_request : Event

-- An admitted user is signed in.
abbrev pub IsEntered : SessionView → Type 0
IsEntered t = (u : AuthUser) × (t.user ≡ some u) × IsAdmitted u

-- A sign-in of before is taken up again.
abbrev pub Renews : SessionView → SessionView → Type 0
Renews s t = (s.resumable ≡ true) × IsEntered t

-- What a request may do to the session on its way.
abbrev pub Drifts : SessionView → SessionView → Type 0
Drifts s t = (t ≡ s) ⊎ ((t ≡ signed_out) ⊎ Renews s t)

abbrev pub Allows : Event → SessionView → SessionView → Type 0
Allows register s t = t ≡ s
Allows sign_in s t = (t ≡ s) ⊎ IsEntered t
Allows sign_out s t = t ≡ signed_out
Allows load s t = (t ≡ signed_out) ⊎ Renews s t
Allows refresh s t = Drifts s t
Allows refresh_by_handler s t = (t ≡ signed_out) ⊎ Renews s t
Allows expire s t = t ≡ signed_out
Allows new_password s t = Drifts s t
Allows page_request s t = Drifts s t

-- The events of a run, last first.
abbrev pub Trace : List Event → SessionView → SessionView → Type 0
Trace [] s t = t ≡ s
Trace (e ∷ es) s t = (r : SessionView) × Trace es s r × Allows e r t

pub Drifts-trans : (s r t : SessionView) → Drifts s r → Drifts r t → Drifts s t
Drifts-trans s r t (inl e) d = subst (λ x. Drifts x t) e d
Drifts-trans s r t d (inl e) = subst (Drifts s) (sym e) d
Drifts-trans s r t d (inr (inl e)) = inr (inl e)
Drifts-trans s r t (inr (inl e)) (inr (inr (b, u))) = let f = ap (λ x. x.resumable) e in cc
Drifts-trans s r t (inr (inr (a, _))) (inr (inr (b, u))) = inr (inr (a, u))

abbrev pub is_sign_in : Event → Bool
is_sign_in sign_in = true
is_sign_in _ = false

pub is_there-none : {A : Type 0} (o : Option A) → is_there o ≡ false → o ≡ none
is_there-none none e = refl
is_there-none (some a) e = cc

kept_out : (s t : SessionView) → s ≡ signed_out → Drifts s t → t ≡ signed_out
kept_out s t h (inl e) = e ∙ h
kept_out s t h (inr (inl e)) = e
kept_out s t h (inr (inr (p, u))) = let f = ap (λ x. x.resumable) h in cc

renewed_out : (s t : SessionView) → s ≡ signed_out → (t ≡ signed_out) ⊎ Renews s t → t ≡ signed_out
renewed_out s t h d = kept_out s t h (inr d)

-- Of the events, only a sign-in leaves the signed-out session.
event_out :
    (e : Event) (s t : SessionView)
    → is_sign_in e ≡ false
    → s ≡ signed_out
    → Allows e s t
    → t ≡ signed_out
event_out register s t n h a = a ∙ h
event_out sign_in s t n h a = cc
event_out sign_out s t n h a = a
event_out load s t n h a = renewed_out s t h a
event_out refresh s t n h a = kept_out s t h a
event_out refresh_by_handler s t n h a = renewed_out s t h a
event_out expire s t n h a = a
event_out new_password s t n h a = kept_out s t h a
event_out page_request s t n h a = kept_out s t h a

pub Trace-signed_out :
    (es : List Event) {s t : SessionView}
    → Trace es s t
    → any is_sign_in es ≡ false
    → s ≡ signed_out
    → t ≡ signed_out
Trace-signed_out [] e n h = e ∙ h
Trace-signed_out (e ∷ es) {s} {t} (r, past, a) n h =
    event_out e r t (ground arith) (Trace-signed_out es past (ground arith) h) a
