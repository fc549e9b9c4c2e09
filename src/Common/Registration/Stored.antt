-- ===== src/Common/Registration/Stored.antt =====
-- What a registration leaves in the API server.
use mathlib.Core.Path.{fun_ext}
use admission_controller.Base.{
  String, Option, none, some, Error, ok, err, ◌≡◌, refl, ap, ◌∙◌, inl, inr, arith, ◌==◌, ==_refl,
  if◌then◌else◌, Option-cases,
}
use admission_controller.Common.Registration.{
  WebhookConfiguration, Configurations, replace, register,
}

abbrev pub ByName : Type 0
ByName = String → Option WebhookConfiguration

abbrev pub set : String → Option WebhookConfiguration → ByName → ByName
set n v f k = if n == k then v else f k

-- An API server that answers, with no other client writing meanwhile: it finds what is stored, deletes
-- what is there and creates what is not.
pub record Answers (client : Configurations) : Type 0 where
  pub stored : client.State → ByName
  pub stored-get : (n : String) (w : client.State) → stored (client.get n w).1 ≡ stored w
  pub finds :
      (n : String) (w : client.State) (c : WebhookConfiguration)
      → stored w n ≡ some c
      → (client.get n w).0 ≡ ok c
  pub misses :
      (n : String) (w : client.State)
      → stored w n ≡ none
      → (e : Error) × ((client.get n w).0 ≡ err e)
  pub deletes :
      (n : String) (w : client.State) (c : WebhookConfiguration)
      → stored w n ≡ some c
      → ((client.delete n w).0 ≡ none) × (stored (client.delete n w).1 ≡ set n none (stored w))
  pub creates :
      (c : WebhookConfiguration) (w : client.State)
      → stored w c.name ≡ none
      → ((client.create c w).0 ≡ none)
        × (stored (client.create c w).1 ≡ set c.name (some c) (stored w))

set_twice :
    (n : String) (v v' : Option WebhookConfiguration) (f : ByName)
    → set n v (set n v' f) ≡ set n v f
set_twice n v v' f = fun_ext λ k. ground arith

set_self : (n : String) (v : Option WebhookConfiguration) (f : ByName) → set n v f n ≡ v
set_self n v f = rw (==_refl n) refl

module _ (client : Configurations) (server : Answers client) where
  open client use {State}
  open server use {stored, stored-get, finds, misses, deletes, creates}

  abbrev pub IsRegistered : WebhookConfiguration → State → Option Error × State → Type 0
  IsRegistered c w (failed, w') = (failed ≡ none) × (stored w' ≡ set c.name (some c) (stored w))

  -- Registering a configuration succeeds, stores it under its name whatever was there before, and
  -- changes nothing else.
  pub register-IsRegistered :
      (c : WebhookConfiguration) (w : State) → IsRegistered c w (register client c w)
  unfolding register
  register-IsRegistered c w =
      let w1 = (client.get c.name w).1 in
      let same = stored-get c.name w in
      elim (Option-cases (stored w c.name)) [
        | inl absent ↦
            let (e, missed) = misses c.name w absent in
            let (made, now) = creates c w1 (rw same absent) in
            rw (missed, register) (made, now ∙ ap (set c.name (some c)) same)
        | inr (old, there) ↦
            let w2 = (client.delete c.name w1).1 in
            let (gone, left) = deletes c.name w1 old (rw same there) in
            let (made, now) = creates c w2 (rw left (set_self c.name none (stored w1))) in
            rw (finds c.name w old there, register)
              (rw (gone, replace)
                (
                  made,
                  now
                      ∙ ap (set c.name (some c)) (left ∙ ap (set c.name none) same)
                      ∙ set_twice c.name (some c) none (stored w),
                ))
      ]
