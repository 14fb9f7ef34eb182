-- ===== src/Gateway/Hub/Entries.antt =====
-- Entering and leaving the hub's map of clients.
use ticketer.Base.{
  ℕ, String, Bool, true, false, Option, none, some, ◌≡◌, ◌≢◌, inl, inr, refl, ◌∙◌, arith, List, [],
  ◌∷◌, ◌++◌, ◌==◌, eq_iff, eq_refl, Bool-cases, if◌then◌else◌,
}
use ticketer.Gateway.Hub.{Channel, put, lookup, delete}
use ticketer.Gateway.Hub.Wired.{member, IsWired, member-lookup}

same : (b : Bool) → if◌then◌else◌ {A = Option ℕ} b none none ≡ none
same b = ground arith

pub put-ne :
    (d c : ℕ) (ch : Channel) (channels : ℕ → Channel)
    → d ≢ c
    → (channels c).closed ≡ false
    → (put d ch channels c).closed ≡ false
put-ne d c ch channels n o = ground arith

module _ (user_id : ℕ → String) where
  -- Once a user's entry is deleted, the map has none for them and the others' as before.
  pub lookup-delete :
      (user v : String) (clients : List ℕ)
      → lookup user_id v (delete user_id user clients)
        ≡ (if user == v then none else lookup user_id v clients)
  unfolding lookup delete
  lookup-delete user v [] = ground arith
  lookup-delete user v (c ∷ clients) = ground (
    arith,
    eq_iff (user_id c) user,
    eq_iff (user_id c) v,
    eq_iff user v,
    lookup-delete user v clients,
  )

  pub lookup-enter :
      (v : String) (c : ℕ) (clients : List ℕ)
      → lookup user_id v clients ≡ none
      → lookup user_id v (clients ++ c ∷ []) ≡ (if user_id c == v then some c else none)
  unfolding lookup
  lookup-enter v c [] h = refl
  lookup-enter v c (d ∷ clients) h = ground (arith, lookup-enter v c clients)

  delete-IsWired :
      (user : String) (channels : ℕ → Channel) (clients : List ℕ)
      → IsWired user_id channels clients
      → IsWired user_id channels (delete user_id user clients)
  unfolding delete
  delete-IsWired user channels [] k = tt
  delete-IsWired user channels (c ∷ clients) k = elim (Bool-cases (user_id c == user)) [
    | inl q ↦ rw q (delete-IsWired user channels clients k.2)
    | inr q ↦ rw q (
      k.0,
      lookup-delete user (user_id c) clients ∙ rw k.1 (same (user == user_id c)),
      delete-IsWired user channels clients k.2,
    )
  ]

  pub enter-IsWired :
      (c : ℕ) (channels : ℕ → Channel) (clients : List ℕ)
      → (channels c).closed ≡ false
      → lookup user_id (user_id c) clients ≡ none
      → IsWired user_id channels clients
      → IsWired user_id channels (clients ++ c ∷ [])
  unfolding lookup
  enter-IsWired c channels [] o l k = (o, refl, tt)
  enter-IsWired c channels (d ∷ clients) o l k = (
    k.0,
    ground (
      arith,
      eq_iff (user_id c) (user_id d),
      eq_iff (user_id d) (user_id c),
      lookup-enter (user_id d) c clients k.1,
    ),
    enter-IsWired c channels clients o (ground (arith, eq_iff (user_id d) (user_id c))) k.2,
  )

  -- After a client has taken the place of its user's existing one, the map holds it.
  pub now_entered :
      (c : ℕ) (user : String) (clients : List ℕ)
      → user_id c ≡ user
      → lookup user_id user (delete user_id (user_id c) clients ++ c ∷ []) ≡ some c
  now_entered c user clients u =
      let q : (user_id c == user) ≡ true = (eq_iff (user_id c) user).1 u in
      lookup-enter user c (delete user_id (user_id c) clients)
        (lookup-delete (user_id c) user clients ∙ rw q refl)
      ∙ rw q refl

  pub deleted-none :
      (user : String) (clients : List ℕ) → lookup user_id user (delete user_id user clients) ≡ none
  deleted-none user clients = lookup-delete user user clients ∙ rw (eq_refl user) refl

  -- The channel of a client that is not registered may change.
  put-other :
      (c : ℕ) (ch : Channel) (channels : ℕ → Channel) (clients : List ℕ)
      → member c clients ≡ false
      → IsWired user_id channels clients
      → IsWired user_id (put c ch channels) clients
  put-other c ch channels [] m k = tt
  put-other c ch channels (d ∷ clients) m k =
      (ground arith, k.1, put-other c ch channels clients (ground arith) k.2)

  pub left-IsWired :
      (c : ℕ) (ch : Channel) (channels : ℕ → Channel) (clients : List ℕ)
      → IsWired user_id channels clients
      → IsWired user_id (put c ch channels) (delete user_id (user_id c) clients)
  left-IsWired c ch channels clients k =
      put-other c ch channels (delete user_id (user_id c) clients)
        (member-lookup user_id c _ (deleted-none (user_id c) clients))
        (delete-IsWired (user_id c) channels clients k)
