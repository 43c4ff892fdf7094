-- ===== src/Json/Clean.antt =====
-- Values in which a key of some kind is never followed by anything but the mask: the promise of
-- the two sanitizers of metadata. Where `deep` is false the promise ends at arrays.
use telecam.Prelude.{◌≡◌, Bool, true, Bool-cases, inl, inr}
use telecam.Text.{Text, text_eq}
use telecam.Text.Laws.{text_eq_iff}
use telecam.Json.Defs.{
  Json, string, array, object, Items, nil, cons, Fields, end, field, insert, assign, proto,
}

module _ {N : Type 0} (mask : Text) (sensitive : Text → Bool) (deep : Bool) where
  unfoldable mutual
    pub IsClean : Json N → Type 0
    IsClean (object fs) = IsCleanFields fs
    IsClean (array vs) = deep ≡ true → IsCleanItems vs
    IsClean _ = Unit

    pub IsCleanItems : Items N → Type 0
    IsCleanItems nil = Unit
    IsCleanItems (cons v vs) = IsClean v × IsCleanItems vs

    pub IsCleanFields : Fields N → Type 0
    IsCleanFields end = Unit
    IsCleanFields (field k v fs) =
        (sensitive k ≡ true → v ≡ string mask) × (IsClean v × IsCleanFields fs)

  pub insert-IsCleanFields :
      (k : Text) (v : Json N) (fs : Fields N)
      → (sensitive k ≡ true → v ≡ string mask)
      → IsClean v
      → IsCleanFields fs
      → IsCleanFields (insert k v fs)
  unfolding insert IsClean
  insert-IsCleanFields k v end h c _ = (h, (c, tt))
  insert-IsCleanFields k v (field j w fs) h c (g, (d, r)) = elim (Bool-cases (text_eq j k)) [
    | inl e ↦ rw (e, insert) ((λ s. h (rw (← (text_eq_iff j k).0 e) s)), (c, r))
    | inr e ↦ rw (e, insert) (g, (d, insert-IsCleanFields k v fs h c r))
  ]

  pub assign-IsCleanFields :
      (k : Text) (v : Json N) (fs : Fields N)
      → (sensitive k ≡ true → v ≡ string mask)
      → IsClean v
      → IsCleanFields fs
      → IsCleanFields (assign k v fs)
  unfolding assign
  assign-IsCleanFields k v fs h c d = elim (Bool-cases (text_eq k proto)) [
    | inl e ↦ rw (e, assign) d
    | inr e ↦ rw (e, assign) (insert-IsCleanFields k v fs h c d)
  ]
