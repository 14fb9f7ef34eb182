-- ===== src/Gateway/Hub/Wired.antt =====
-- The registered clients have open channels and different users.
use ticketer.Base.{
  ℕ, eqb, ltb, length, String, Bool, true, false, none, some, ◌≡◌, inl, inr, refl, ◌∙◌, ap, arith,
  ◌||◌, List, [], ◌∷◌, ◌++◌, eq_iff, Bool-cases, if◌then◌else◌,
}
use ticketer.Gateway.Hub.{Channel, send_buffer_size, put, offer, update, broadcast, lookup}

abbrev pub member : ℕ → List ℕ → Bool
member d [] = false
member d (c ∷ clients) = eqb c d || member d clients

-- What a channel that is open holds after a text was offered to it: a full one drops it.
abbrev pub offered : String → Channel → Channel
offered payload ch =
    if ltb (length ch.waiting) send_buffer_size
    then record ch { waiting = ch.waiting ++ payload ∷ [] }
    else ch

pub offered-closed : (payload : String) (ch : Channel) → (offered payload ch).closed ≡ ch.closed
offered-closed payload ch = ground arith

pub offer-open :
    (payload : String) (ch : Channel)
    → ch.closed ≡ false
    → offer payload ch ≡ some (offered payload ch)
unfolding offer
offer-open payload ch h = rw h (ground arith)

pub eqb_self : (c : ℕ) → eqb c c ≡ true
eqb_self c = ground arith

module _ (user_id : ℕ → String) where
  abbrev pub IsWired : (ℕ → Channel) → List ℕ → Type 0
  IsWired channels [] = Unit {0}
  IsWired channels (c ∷ clients) =
      ((channels c).closed ≡ false)
      × (lookup user_id (user_id c) clients ≡ none)
      × IsWired channels clients

  pub put-IsWired :
      (c : ℕ) (ch : Channel) (channels : ℕ → Channel) (clients : List ℕ)
      → ch.closed ≡ false
      → IsWired channels clients
      → IsWired (put c ch channels) clients
  put-IsWired c ch channels [] h k = tt
  put-IsWired c ch channels (d ∷ clients) h k =
      (ground arith, k.1, put-IsWired c ch channels clients h k.2)

  -- A user who is not in the map has no client there.
  pub member-lookup :
      (c : ℕ) (clients : List ℕ)
      → lookup user_id (user_id c) clients ≡ none
      → member c clients ≡ false
  unfolding lookup
  member-lookup c [] h = refl
  member-lookup c (d ∷ clients) h = ground (
    arith,
    eq_iff (user_id d) (user_id c),
    (λ (q : d ≡ c). ap user_id q),
    member-lookup c clients,
  )

  one_more :
      (payload : String) (c d : ℕ) (clients : List ℕ) (channels : ℕ → Channel)
      → member c clients ≡ false
      → (if member d clients
          then offered payload (put c (offered payload (channels c)) channels d)
          else put c (offered payload (channels c)) channels d)
        ≡ (if member d (c ∷ clients) then offered payload (channels d) else channels d)
  one_more payload c d clients channels h = elim (Bool-cases (eqb c d)) [
    | inl q ↦ let p : c ≡ d = ground arith in rw (← p) (rw (h, eqb_self c) refl)
    | inr q ↦ rw q refl
  ]

  -- A broadcast reaches every client once.
  pub broadcast-each :
      (payload : String) (clients : List ℕ) (channels : ℕ → Channel)
      → IsWired channels clients
      → (channels' : ℕ → Channel) × (broadcast clients payload channels ≡ some channels')
        × ((d : ℕ)
            → channels' d ≡ (if member d clients then offered payload (channels d) else channels d))
  unfolding broadcast
  broadcast-each payload [] channels k = (channels, refl, λ d. refl)
  broadcast-each payload (c ∷ clients) channels k =
      let ch : Channel = offered payload (channels c) in
      let (channels', done, each) =
        broadcast-each payload clients (put c ch channels)
          (put-IsWired c ch channels clients (offered-closed payload (channels c) ∙ k.0) k.2) in
      rw (broadcast, offer-open payload (channels c) k.0, update)
        (
          channels',
          done,
          λ d. each d ∙ one_more payload c d clients channels (member-lookup c clients k.1),
        )

  closed-IsWired :
      (channels channels' : ℕ → Channel) (clients : List ℕ)
      → ((d : ℕ) → (channels' d).closed ≡ (channels d).closed)
      → IsWired channels clients
      → IsWired channels' clients
  closed-IsWired channels channels' [] h k = tt
  closed-IsWired channels channels' (c ∷ clients) h k =
      (h c ∙ k.0, k.1, closed-IsWired channels channels' clients h k.2)

  closed-if :
      (payload : String) (b : Bool) (ch : Channel)
      → (if b then offered payload ch else ch).closed ≡ ch.closed
  closed-if payload true ch = offered-closed payload ch
  closed-if payload false ch = refl

  pub broadcast-IsWired :
      (payload : String) (clients : List ℕ) (channels : ℕ → Channel)
      → IsWired channels clients
      → (channels' : ℕ → Channel) × (broadcast clients payload channels ≡ some channels')
        × IsWired channels' clients
  broadcast-IsWired payload clients channels k =
      let (channels', done, each) = broadcast-each payload clients channels k in
      (
        channels',
        done,
        closed-IsWired channels channels' clients
            (λ d. rw (each d) (closed-if payload (member d clients) (channels d))) k,
      )
